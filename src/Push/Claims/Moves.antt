-- ===== src/Push/Claims/Moves.antt =====
-- The transactions on push configurations as moves, by any dispatcher, caller or administrator.
use managed_agent_web_slack.Common.{ℕ, List, [], ◌∷◌}
use managed_agent_web_slack.Store.{Key}
use managed_agent_web_slack.Runtime.Moves.Defs.{Move, move}
use managed_agent_web_slack.Push.Configs.{PushDb, create_config, delete_config}
use managed_agent_web_slack.Push.Claims.{
  Delivery, reset_delivery, claim_delivery, finish_delivery, release_delivery,
}

-- `controller` is a move on the controller's own tables, time included.
pub data PushMove : Type 0 where
  controller : Move → PushMove
  create : Key → Key → Key → PushMove
  delete reset : Key → Key → PushMove
  claim : Key → Key → Key → ℕ → PushMove
  finish : Key → Key → Key → Delivery → PushMove
  release : Key → Key → Key → PushMove

unfoldable pub push_move : PushMove → PushDb → PushDb
unfolding create_config delete_config reset_delivery claim_delivery finish_delivery release_delivery
    move
push_move (PushMove.controller m) db = record db { base = move m db.base }
push_move (PushMove.create t c url) db = (create_config t c url db).1
push_move (PushMove.delete t c) db = (delete_config t c db).1
push_move (PushMove.reset t c) db = (reset_delivery t c db).1
push_move (PushMove.claim claim_id t c n) db = (claim_delivery claim_id t c n db).1
push_move (PushMove.finish t c claim_id d) db = (finish_delivery t c claim_id d db).1
push_move (PushMove.release t c claim_id) db = release_delivery t c claim_id db

unfoldable pub push_moves : List PushMove → PushDb → PushDb
unfolding push_move
push_moves [] db = db
push_moves (m ∷ ms) db = push_moves ms (push_move m db)
