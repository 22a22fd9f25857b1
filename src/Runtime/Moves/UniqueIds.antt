-- ===== src/Runtime/Moves/UniqueIds.antt =====
-- The primary key of cma_input_requests: no move gives two requests one id.
use managed_agent_web_slack.Common.{
  ◌≡◌, refl, sym, subst, ◌==◌, List, [], ◌∷◌, ◌++◌, Bool, true, false, any_row, update_where, arith,
  Bool-cases, inl, inr,
}
use managed_agent_web_slack.Store.{Key, Decision, Request, Db}
use managed_agent_web_slack.Runtime.Review.{
  Offer, record_policy_decision, record_human_review, record_human_ruling,
  mark_confirmation_attempted, deny_cancelled_input_request, unsettled, decided, offered, ruled,
  attemptable, attempted_at, deniable, denied, id_taken, update_requests, or_lost,
}
use managed_agent_web_slack.Runtime.Requests.{
  add_input_request, resolve_input_request, new_request, resolvable, resolved_request,
}
use managed_agent_web_slack.Runtime.Moves.Defs.{Move, move}
use managed_agent_web_slack.Runtime.Moves.Untouched.{move-untouched}

abbrev pub has_id : Key → List Request → Bool
has_id k rows = any_row (λ r. r.request_id == k) rows

abbrev pub UniqueIds : List Request → Type 0
UniqueIds [] = Unit
UniqueIds (r ∷ rows) = (has_id r.request_id rows ≡ false) × UniqueIds rows

has_id-update_where :
    (k : Key) (p : Request → Bool) (f : Request → Request) (rows : List Request)
    → ((r : Request) → (f r).request_id ≡ r.request_id)
    → has_id k (update_where p f rows) ≡ has_id k rows
has_id-update_where k p f [] same = refl
has_id-update_where k p f (r ∷ rows) same =
    ground (arith, same r, has_id-update_where k p f rows same)

UniqueIds-update_where :
    (p : Request → Bool) (f : Request → Request) (rows : List Request)
    → ((r : Request) → (f r).request_id ≡ r.request_id)
    → UniqueIds rows
    → UniqueIds (update_where p f rows)
UniqueIds-update_where p f [] same u = tt
UniqueIds-update_where p f (r ∷ rows) same u = ground (
  arith,
  same r,
  has_id-update_where r.request_id p f rows same,
  has_id-update_where (f r).request_id p f rows same,
  UniqueIds-update_where p f rows same u.1,
)

has_id-append :
    (k : Key) (rows : List Request) (r : Request)
    → has_id k rows ≡ false
    → (r.request_id == k) ≡ false
    → has_id k (rows ++ r ∷ []) ≡ false
has_id-append k [] r h ne = ground arith
has_id-append k (x ∷ rows) r h ne = ground (arith, has_id-append k rows r)

UniqueIds-append :
    (rows : List Request) (r : Request)
    → has_id r.request_id rows ≡ false
    → UniqueIds rows
    → UniqueIds (rows ++ r ∷ [])
UniqueIds-append [] r h u = ground arith
UniqueIds-append (x ∷ rows) r h u =
    ground (arith, has_id-append x.request_id rows r, UniqueIds-append rows r)

-- A row that a rotation finds has the old id.
module _ (p : Request → Bool) (f : Request → Request) (old fresh : Key)
    (named : (r : Request) → p r ≡ true → r.request_id ≡ old)
    (renamed : (r : Request) → (f r).request_id ≡ fresh) where
  rotation_misses : (rows : List Request) → has_id old rows ≡ false → update_where p f rows ≡ rows
  rotation_misses [] h = refl
  rotation_misses (r ∷ rows) h = ground (arith, named r, rotation_misses rows)

  has_id-rotation :
      (k : Key) (rows : List Request)
      → has_id k rows ≡ false
      → (fresh == k) ≡ false
      → has_id k (update_where p f rows) ≡ false
  has_id-rotation k [] h ne = refl
  has_id-rotation k (r ∷ rows) h ne = ground (arith, renamed r, has_id-rotation k rows)

  UniqueIds-rotation :
      (rows : List Request)
      → has_id fresh rows ≡ false
      → UniqueIds rows
      → UniqueIds (update_where p f rows)
  UniqueIds-rotation [] free u = tt
  UniqueIds-rotation (r ∷ rows) free u = ground (
    arith,
    named r,
    renamed r,
    rotation_misses rows,
    has_id-rotation r.request_id rows,
    UniqueIds-rotation rows,
  )

  -- To the same id: the other ids stay.
  has_id-kept :
      (k : Key) (rows : List Request)
      → old ≡ fresh
      → has_id k (update_where p f rows) ≡ has_id k rows
  has_id-kept k [] e = refl
  has_id-kept k (r ∷ rows) e = ground (arith, named r, renamed r, has_id-kept k rows e)

  UniqueIds-kept :
      (rows : List Request) → old ≡ fresh → UniqueIds rows → UniqueIds (update_where p f rows)
  UniqueIds-kept [] e u = tt
  UniqueIds-kept (r ∷ rows) e u = ground (
    arith,
    named r,
    renamed r,
    has_id-kept r.request_id rows e,
    has_id-kept (f r).request_id rows e,
    UniqueIds-kept rows e,
  )

abbrev UniqueAfter : Db → Db → Type 0
UniqueAfter db after = UniqueIds db.requests → UniqueIds after.requests

-- An UPDATE that writes no id.
updated-UniqueIds :
    (p : Request → Bool) (f : Request → Request) (db : Db)
    → ((r : Request) → (f r).request_id ≡ r.request_id)
    → UniqueAfter db (update_requests p f db).1
updated-UniqueIds p f db same u = UniqueIds-update_where p f db.requests same u

or_lost-UniqueIds : (u : Bool × Db) (db : Db) → UniqueAfter db u.1 → UniqueAfter db (or_lost u db).1
or_lost-UniqueIds (true, reached) db h = h
or_lost-UniqueIds (false, reached) db h = λ u. u

rotated-UniqueIds :
    (c t claim r : Key) (o : Offer) (fresh : Key) (db : Db)
    → id_taken fresh r db ≡ false
    → UniqueAfter db (update_requests (unsettled c t claim r db) (offered fresh o db.now) db).1
unfolding unsettled
rotated-UniqueIds c t claim r o fresh db free u = elim (Bool-cases (fresh == r)) [
  | inl same ↦
      UniqueIds-kept (unsettled c t claim r db) (offered fresh o db.now) r fresh
        (λ row h. ground arith) (λ row. refl) db.requests (ground arith) u
  | inr new ↦
      UniqueIds-rotation (unsettled c t claim r db) (offered fresh o db.now) r fresh
        (λ row h. ground arith) (λ row. refl) db.requests (ground arith) u
]

review-UniqueIds :
    (c t claim r : Key) (o : Offer) (fresh : Key) (db : Db)
    → UniqueAfter db (record_human_review c t claim r o fresh db).1
unfolding record_human_review
review-UniqueIds c t claim r o fresh db u =
    elim (Bool-cases (any_row (unsettled c t claim r db) db.requests)) [
      | inl hit ↦ elim (Bool-cases (id_taken fresh r db)) [
        | inl taken ↦ rw (hit, taken) u
        | inr free ↦ rw (hit, free) (rotated-UniqueIds c t claim r o fresh db free u)
      ]
      | inr miss ↦ rw miss u
    ]

ruling-UniqueIds :
    (r t : Key) (d : Decision) (db : Db) → UniqueAfter db (record_human_ruling r t d db).1
unfolding record_human_ruling
ruling-UniqueIds r t d db u = ground (
  arith,
  UniqueIds-update_where (λ x. x.request_id == r) (ruled d db.now) db.requests (λ row. refl) u,
)

add-UniqueIds :
    (r t e c claim : Key) (db : Db) → UniqueAfter db (add_input_request r t e c claim db).1
unfolding add_input_request
add-UniqueIds r t e c claim db u =
    ground (arith, UniqueIds-append db.requests (new_request r t e db.now))

-- Whatever the move, the ids of the input requests stay distinct.
pub move-UniqueIds : (m : Move) (db : Db) → UniqueAfter db (move m db)
unfolding move record_policy_decision mark_confirmation_attempted deny_cancelled_input_request
    resolve_input_request
move-UniqueIds (Move.record_policy_decision c t claim r d) db =
    or_lost-UniqueIds _ db
      (updated-UniqueIds (unsettled c t claim r db) (decided d db.now) db (λ row. refl))
move-UniqueIds (Move.record_human_review c t claim r o fresh) db =
    review-UniqueIds c t claim r o fresh db
move-UniqueIds (Move.record_human_ruling r t d) db = ruling-UniqueIds r t d db
move-UniqueIds (Move.mark_confirmation_attempted r c claim) db =
    updated-UniqueIds (attemptable r c claim db) (attempted_at db.now) db (λ row. refl)
move-UniqueIds (Move.deny_cancelled_input_request r c claim) db =
    updated-UniqueIds (deniable r c claim db) (denied db.now) db (λ row. refl)
move-UniqueIds (Move.add_input_request r t e c claim) db = add-UniqueIds r t e c claim db
move-UniqueIds (Move.resolve_input_request r c claim) db =
    updated-UniqueIds (resolvable r c claim db) (resolved_request db.now) db (λ row. refl)
move-UniqueIds m db = λ u. subst UniqueIds (sym (move-untouched m db refl)) u
