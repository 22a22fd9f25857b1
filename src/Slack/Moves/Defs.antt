-- ===== src/Slack/Moves/Defs.antt =====
-- Every transaction on the Slack side's tables as one move, and time that passes between two of
-- them. A transaction that raises moves nothing.
use managed_agent_web_slack.Common.{ℕ, ◌+◌, Bool, Option, List, [], ◌∷◌, ◌++◌}
use managed_agent_web_slack.Store.{Key, A2aState}
use managed_agent_web_slack.Slack.{ProjectionStatus, SlackDb}
use managed_agent_web_slack.Slack.Ingress
use managed_agent_web_slack.Slack.Projections
use managed_agent_web_slack.Slack.Projections.{Source}
use managed_agent_web_slack.Slack.Items
use managed_agent_web_slack.Slack.Items.{ItemKey}

-- `tick` is time that passes; the next two are ids that the application's threads gain.
pub data SlackMove : Type 0 where
  tick : ℕ → SlackMove
  add_thread add_binding : Key → SlackMove
  claim_ingress : Key → Key → Key → Key → ℕ → SlackMove
  complete_ingress : Key → Key → Key → Option Key → Option Key → SlackMove
  fail_ingress : Key → Key → Key → List ℕ → SlackMove
  ensure_projection : Key → Key → Source → SlackMove
  claim_task_stream : Key → Key → Key → ℕ → SlackMove
  update_stream_message : Key → Key → Key → Key → SlackMove
  finish_stream : Key → Key → Key → Bool → Option A2aState → Option (List ℕ) → SlackMove
  mark_projection : Key → Key → A2aState → ProjectionStatus → SlackMove
  close_human_input : Key → Key → Key → SlackMove
  claim_item : Key → ItemKey → ℕ → SlackMove
  finish_item : ItemKey → Key → Option Key → Option (List ℕ) → SlackMove

unfoldable pub slack_move : SlackMove → SlackDb → SlackDb
slack_move (SlackMove.tick n) db = record db { now = db.now + n }
slack_move (SlackMove.add_thread id) db = record db { threads = db.threads ++ id ∷ [] }
slack_move (SlackMove.add_binding id) db = record db { bindings = db.bindings ++ id ∷ [] }
slack_move (SlackMove.claim_ingress f k s e n) db = (Ingress.claim_ingress f k s e n db).1
slack_move (SlackMove.complete_ingress s e k t u) db = (Ingress.complete_ingress s e k t u db).1
slack_move (SlackMove.fail_ingress s e k error) db = Ingress.fail_ingress s e k error db
slack_move (SlackMove.ensure_projection b t s) db = (Projections.ensure_projection b t s db).1
slack_move (SlackMove.claim_task_stream k b t n) db = (Projections.claim_task_stream k b t n db).1
slack_move (SlackMove.update_stream_message b t k ts) db =
    Projections.update_stream_message b t k ts db
slack_move (SlackMove.finish_stream b t k fallback state error) db =
    Projections.finish_stream b t k fallback state error db
slack_move (SlackMove.mark_projection b t state status) db =
    Projections.mark_projection b t state status db
slack_move (SlackMove.close_human_input b t i) db = Items.close_human_input b t i db
slack_move (SlackMove.claim_item k key n) db = (Items.claim_item k key n db).1
slack_move (SlackMove.finish_item key k ts error) db = Items.finish_item key k ts error db

unfoldable pub slack_moves : List SlackMove → SlackDb → SlackDb
unfolding slack_move
slack_moves [] db = db
slack_moves (m ∷ ms) db = slack_moves ms (slack_move m db)
