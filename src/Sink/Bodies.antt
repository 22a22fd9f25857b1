-- ===== src/Sink/Bodies.antt =====
-- The body of a push: `async for chunk in request.stream()` of a2a_event_sink/app.py.
use managed_agent_web_slack.Common.{
  ℕ, ◌+◌, ◌*◌, ◌≡◌, refl, sym, ltb, leb, length, Option, none, some, List, [], ◌∷◌, ◌++◌, true,
  if◌then◌else◌, Bool-cases, inl, inr, arith,
}

abbrev pub max_body_bytes : ℕ
max_body_bytes = 1024 * 1024

-- `none` is the exception: a chunk would take the body over the limit.
unfoldable pub read_body : ℕ → List ℕ → List (List ℕ) → Option (List ℕ)
read_body limit body [] = some body
read_body limit body (chunk ∷ chunks) =
    let rest = read_body limit (body ++ chunk) chunks in
    if ltb limit (length body + length chunk) then none else rest

-- The whole stream, and its length.
abbrev pub joined : List (List ℕ) → List ℕ
joined [] = []
joined (chunk ∷ chunks) = chunk ++ joined chunks

length-append : (xs ys : List ℕ) → length (xs ++ ys) ≡ length xs + length ys
length-append [] ys = omega arith
length-append (x ∷ xs) ys = ground (arith, length-append xs ys)

append_assoc : (xs ys zs : List ℕ) → (xs ++ ys) ++ zs ≡ xs ++ (ys ++ zs)
append_assoc [] ys zs = refl
append_assoc (x ∷ xs) ys zs = rw (append_assoc xs ys zs) refl

append_nil : (xs : List ℕ) → xs ++ [] ≡ xs
append_nil [] = refl
append_nil (x ∷ xs) = rw (append_nil xs) refl

read_body-joined :
    (limit : ℕ) (body : List ℕ) (chunks : List (List ℕ))
    → leb (length body) limit ≡ true
    → read_body limit body chunks
      ≡ (if leb (length (body ++ joined chunks)) limit then some (body ++ joined chunks) else none)
unfolding read_body
read_body-joined limit body [] fits = rw (append_nil body, fits) refl
read_body-joined limit body (chunk ∷ chunks) fits =
    elim (Bool-cases (leb (length (body ++ chunk)) limit)) [
      | inl more ↦
          let rest = read_body-joined limit (body ++ chunk) chunks more in
          rw (sym (append_assoc body chunk (joined chunks)))
            (ground (arith, rest, more, length-append body chunk))
      | inr over ↦ ground (
        arith,
        over,
        length-append body chunk,
        length-append body (chunk ++ joined chunks),
        length-append chunk (joined chunks),
      )
    ]

-- However the stream is cut into chunks: the body that is read is the whole stream when its length
-- is at most the limit, and a stream that is longer is refused.
pub read_body-whole :
    (limit : ℕ) (chunks : List (List ℕ))
    → read_body limit [] chunks
      ≡ (if leb (length (joined chunks)) limit then some (joined chunks) else none)
read_body-whole limit chunks = read_body-joined limit [] chunks (ground arith)
