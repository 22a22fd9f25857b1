-- ===== src/Push/Claims/Leases.antt =====
-- A delivery claim is exclusive while its lease runs.
use managed_agent_web_slack.Common.{
  ℕ, ◌+◌, ◌==◌, not, update_where, [], ◌∷◌, ◌≡◌, refl, Bool, true, Evolves, Evolves-refl,
  Evolves-update_where, Evolves-append, arith,
}
use managed_agent_web_slack.Store.{Key, Time}
use managed_agent_web_slack.Push.Configs.{
  PushConfig, PushDb, create_config, delete_config, new_config, of_key, live_key, deleted,
}
use managed_agent_web_slack.Push.Claims.{
  Delivery, reset_delivery, claim_delivery, finish_delivery, release_delivery, held_by, resettable,
  reset_row, deliverable, claimed_row, held_row, finished_row, claim_row,
}
use managed_agent_web_slack.Push.Claims.Moves.{PushMove, push_move}

-- From the row `p` to the row `q`, while `claim_id` holds an unexpired claim on `p`.
abbrev pub ClaimKept : Key → Time → PushConfig → PushConfig → Type 0
ClaimKept claim_id now p q =
    held_by claim_id now p ≡ true
    → (q.task_id ≡ p.task_id)
      × (q.config_id ≡ p.config_id)
      × (q.url ≡ p.url)
      × (q.delivery_claim_id ≡ p.delivery_claim_id)
      × (q.delivery_lease_expires_at ≡ p.delivery_lease_expires_at)

-- The move is not the claim's own end.
abbrev pub is_others : Key → PushMove → Bool
is_others claim_id (PushMove.finish t c k d) = not (k == claim_id)
is_others claim_id (PushMove.release t c k) = not (k == claim_id)
is_others claim_id _ = true

ClaimKept-refl : (claim_id : Key) (now : Time) (p : PushConfig) → ClaimKept claim_id now p p
ClaimKept-refl claim_id now p held = (refl, refl, refl, refl, refl)

module _ (k : Key) (db : PushDb) where
  updated-ClaimKept :
      (p : PushConfig → Bool) (f : PushConfig → PushConfig)
      → ((r : PushConfig) → p r ≡ true → ClaimKept k db.base.now r (f r))
      → Evolves (ClaimKept k db.base.now) db.configs (update_where p f db.configs)
  updated-ClaimKept p f step =
      Evolves-update_where (ClaimKept k db.base.now) (ClaimKept-refl k db.base.now) p f db.configs
        step

  same-ClaimKept : Evolves (ClaimKept k db.base.now) db.configs db.configs
  same-ClaimKept = Evolves-refl (ClaimKept k db.base.now) (ClaimKept-refl k db.base.now) db.configs

  delete-ClaimKept :
      (t c : Key) → Evolves (ClaimKept k db.base.now) db.configs (delete_config t c db).1.configs
  unfolding delete_config
  delete-ClaimKept t c =
      updated-ClaimKept (live_key t c) (deleted db.base.now) (λ r h. ground arith)

  reset-ClaimKept :
      (t c : Key) → Evolves (ClaimKept k db.base.now) db.configs (reset_delivery t c db).1.configs
  unfolding reset_delivery
  reset-ClaimKept t c =
      updated-ClaimKept (resettable t c db.base.now) (reset_row db.base.now) (λ r h. ground arith)

  claim-ClaimKept :
      (id t c : Key) (n : ℕ)
      → Evolves (ClaimKept k db.base.now) db.configs (claim_delivery id t c n db).1.configs
  unfolding claim_delivery
  claim-ClaimKept id t c n =
      updated-ClaimKept (deliverable t c db.base.now) (claimed_row id (db.base.now + n))
        (λ r h. ground arith)

  finish-ClaimKept :
      (t c id : Key) (d : Delivery)
      → not (id == k) ≡ true
      → Evolves (ClaimKept k db.base.now) db.configs (finish_delivery t c id d db).1.configs
  unfolding finish_delivery
  finish-ClaimKept t c id d other =
      updated-ClaimKept (held_row t c id db.base.now) (finished_row d db.base.now)
        (λ r h. ground arith)

  release-ClaimKept :
      (t c id : Key)
      → not (id == k) ≡ true
      → Evolves (ClaimKept k db.base.now) db.configs (release_delivery t c id db).configs
  unfolding release_delivery
  release-ClaimKept t c id other = updated-ClaimKept (claim_row t c id) _ (λ r h. ground arith)

  create-ClaimKept :
      (t c url : Key)
      → Evolves (ClaimKept k db.base.now) db.configs (create_config t c url db).1.configs
  unfolding create_config
  create-ClaimKept t c url = ground (
    arith,
    same-ClaimKept,
    updated-ClaimKept (of_key t c) (λ r. record r { updated_at = db.base.now })
        (λ r h held. (refl, refl, refl, refl, refl)),
    Evolves-append (ClaimKept k db.base.now) (ClaimKept-refl k db.base.now) db.configs
        (new_config t c url db.base.now ∷ []),
  )

-- While a dispatcher's delivery claim is unexpired, no transaction but its own finish or release
-- takes the claim away or shortens its lease: not another dispatcher's claim, finish or release,
-- not an administrator's reset, not a deletion. The rows keep their places.
pub push_move-ClaimKept :
    (m : PushMove) (k : Key) (db : PushDb)
    → is_others k m ≡ true
    → Evolves (ClaimKept k db.base.now) db.configs (push_move m db).configs
unfolding push_move
push_move-ClaimKept (PushMove.controller m) k db other = same-ClaimKept k db
push_move-ClaimKept (PushMove.create t c url) k db other = create-ClaimKept k db t c url
push_move-ClaimKept (PushMove.delete t c) k db other = delete-ClaimKept k db t c
push_move-ClaimKept (PushMove.reset t c) k db other = reset-ClaimKept k db t c
push_move-ClaimKept (PushMove.claim id t c n) k db other = claim-ClaimKept k db id t c n
push_move-ClaimKept (PushMove.finish t c id d) k db other = finish-ClaimKept k db t c id d other
push_move-ClaimKept (PushMove.release t c id) k db other = release-ClaimKept k db t c id other
