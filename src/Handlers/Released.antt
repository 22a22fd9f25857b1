-- ===== src/Handlers/Released.antt =====
-- A handler that claimed an event leaves it sent or failed, and never under its claim.
use managed_agent_web_slack.Common.{
  ◌==◌, Option, none, some, Bool, true, false, not, Bool-cases, inl, inr,
}
use managed_agent_web_slack.Store.{Key}
use managed_agent_web_slack.Threads.{Thread, SurfaceBinding}
use managed_agent_web_slack.Sink.Texts.{strip, is_empty}
use managed_agent_web_slack.Handlers.World.{
  Text, World, Env, Action, query, publish, reply, unauthorized, unlinked, unregistered, empty_text,
  service_failed, check, or_raise, meanwhile,
}
use managed_agent_web_slack.Handlers.Claims.{
  Origin, SlackMessage, Confirmation, slack_surface, stop_surface, interaction_surface, attempt,
  authorize, binding_of, owned_thread,
}
use managed_agent_web_slack.Handlers.Messages.{
  submit, refuse, submit_if, act, as_principal, link_existing, projection, run_turn, submit_on,
  surface_thread, may_use, message_body,
}
use managed_agent_web_slack.Handlers.Controls.{
  cancel_in, resolved, confirm_in, stop_body, confirm_thread, confirmation_body,
}
use managed_agent_web_slack.Handlers.Settles.{
  Completes, Settles, complete-Completes, bound, attempt-Settles,
}

module _ (e : Env) where
  refuse-Completes :
      (o : Origin) (text : Text) (k : Key) (w : World)
      → Completes slack_surface o.event_id k (refuse e o text k w)
  refuse-Completes o text k w =
      bound slack_surface o.event_id k (publish e 0 (reply text)) _
        (λ u v. complete-Completes slack_surface o.event_id k e none none v) w

  submit_on-Completes :
      (m : SlackMessage) (k : Key) (x : Thread × SurfaceBinding) (w : World)
      → Completes slack_surface m.origin.event_id k (submit_on e m k x w)
  submit_on-Completes m k (t, b) w =
      bound slack_surface m.origin.event_id k (run_turn e m t) _
        (λ task v.
          bound slack_surface m.origin.event_id k (projection e m (t, b) task) _
            (λ u x.
              complete-Completes slack_surface m.origin.event_id k e (some t.thread_id) (some task)
                x)
            v)
        w

  submit-Completes :
      (p : Key) (m : SlackMessage) (k : Key) (w : World)
      → Completes slack_surface m.origin.event_id k (submit e p m k w)
  unfolding submit
  submit-Completes p m k w =
      bound slack_surface m.origin.event_id k (or_raise e.agent unregistered) _
        (λ agent v.
          bound slack_surface m.origin.event_id k (surface_thread e p agent m) (submit_on e m k)
            (λ found x. submit_on-Completes m k found x) v)
        w

  submit_if-Completes :
      (p : Key) (m : SlackMessage) (k : Key) (owned : Bool) (w : World)
      → Completes slack_surface m.origin.event_id k (submit_if e p m k owned w)
  submit_if-Completes p m k true w = submit-Completes p m k w
  submit_if-Completes p m k false w = refuse-Completes m.origin unauthorized k w

  act-Completes :
      (p : Key) (m : SlackMessage) (b : Option SurfaceBinding) (k : Key) (l : Option (Option Key))
      (w : World)
      → Completes slack_surface m.origin.event_id k (act e p m b k l w)
  act-Completes p m b k (some target) w =
      bound slack_surface m.origin.event_id k (link_existing e p m.origin target) _
        (λ t v. complete-Completes slack_surface m.origin.event_id k e t none v) w
  act-Completes p m b k none w =
      bound slack_surface m.origin.event_id k (check (not (is_empty (strip m.text))) empty_text) _
        (λ u v.
          bound slack_surface m.origin.event_id k (query (may_use p b)) (submit_if e p m k)
            (λ owned x. submit_if-Completes p m k owned x) v)
        w

  as_principal-Completes :
      (m : SlackMessage) (b : Option SurfaceBinding) (k : Key) (p : Option Key) (w : World)
      → Completes slack_surface m.origin.event_id k (as_principal e m b k p w)
  as_principal-Completes m b k none w = refuse-Completes m.origin unlinked k w
  as_principal-Completes m b k (some p) w = elim (Bool-cases (p == 0)) [
    | inl empty ↦ rw (empty, Completes) (refuse-Completes m.origin unlinked k w)
    | inr known ↦ rw (known, Completes) (act-Completes p m b k m.link w)
  ]

  message-Completes :
      (m : SlackMessage) (b : Option SurfaceBinding) (k : Key) (w : World)
      → Completes slack_surface m.origin.event_id k (message_body e m b k w)
  unfolding message_body
  message-Completes m b k w =
      bound slack_surface m.origin.event_id k (meanwhile e 1) _
        (λ u v.
          bound slack_surface m.origin.event_id k (query (authorize e m.origin))
            (as_principal e m b k) (λ p x. as_principal-Completes m b k p x) v)
        w

  stop-Completes :
      (o : Origin) (k : Key) (w : World) → Completes stop_surface o.event_id k (stop_body e o k w)
  unfolding stop_body
  stop-Completes o k w =
      bound stop_surface o.event_id k (meanwhile e 1) _
        (λ u v.
          bound stop_surface o.event_id k (query (authorize e o)) _
            (λ p v1.
              bound stop_surface o.event_id k (query (binding_of o)) _
                (λ b v2.
                  bound stop_surface o.event_id k (query (owned_thread p b)) _
                    (λ t v3.
                      bound stop_surface o.event_id k (cancel_in e t) _
                        (λ task v4.
                          bound stop_surface o.event_id k (meanwhile e 2) _
                            (λ x v5. complete-Completes stop_surface o.event_id k e t task v5) v4)
                        v3)
                    v2)
                v1)
            v)
        w

  confirm-Completes :
      (c : Confirmation) (k : Key) (t : Option Key) (w : World)
      → Completes interaction_surface c.origin.event_id k (confirm_thread e c k t w)
  confirm-Completes c k none w =
      complete-Completes interaction_surface c.origin.event_id k e none none w
  confirm-Completes c k (some t) w =
      bound interaction_surface c.origin.event_id k (or_raise e.task_view service_failed) _
        (λ v w1.
          bound interaction_surface c.origin.event_id k (resolved e c v) _
            (λ r w2.
              bound interaction_surface c.origin.event_id k (confirm_in e c r) _
                (λ u w3.
                  bound interaction_surface c.origin.event_id k (meanwhile e 2) _
                    (λ x w4.
                      complete-Completes interaction_surface c.origin.event_id k e (some t)
                        (some c.task_id) w4)
                    w3)
                w2)
            w1)
        w

  confirmation-Completes :
      (c : Confirmation) (k : Key) (w : World)
      → Completes interaction_surface c.origin.event_id k (confirmation_body e c k w)
  unfolding confirmation_body
  confirmation-Completes c k w =
      bound interaction_surface c.origin.event_id k (meanwhile e 1) _
        (λ u v. confirm-Completes c k _ v) w

-- A delivery that was claimed: a message with its surface's binding, a stop, or a confirmation.
pub data Delivery : Type 0 where
  message : SlackMessage → Option SurfaceBinding → Delivery
  stop : Origin → Delivery
  confirmation : Confirmation → Delivery

abbrev pub surface_name : Delivery → Key
surface_name (message m b) = slack_surface
surface_name (stop o) = stop_surface
surface_name (confirmation c) = interaction_surface

abbrev pub event_name : Delivery → Key
event_name (message m b) = m.origin.event_id
event_name (stop o) = o.event_id
event_name (confirmation c) = c.origin.event_id

abbrev pub body_of : Env → Delivery → Key → Action (Unit {0})
body_of e (message m b) k = message_body e m b k
body_of e (stop o) k = stop_body e o k
body_of e (confirmation c) k = confirmation_body e c k

body-Completes :
    (e : Env) (d : Delivery) (k : Key) (w : World)
    → Completes (surface_name d) (event_name d) k (body_of e d k w)
body-Completes e (message m b) k w = message-Completes e m b k w
body-Completes e (stop o) k w = stop-Completes e o k w
body-Completes e (confirmation c) k w = confirmation-Completes e c k w

-- A Slack message, stop or confirmation whose event a handler claimed, whatever the services answer,
-- whatever others commit meanwhile and wherever the database fails: when the handler returns, the
-- event is sent and no row of it is under the claim; when it raises and `fail_ingress` committed, no
-- row of the event is under the claim; when it raises and `fail_ingress` raised with nothing
-- written, the tables and the published events are as the body of its `try` left them.
pub attempt-released :
    (e : Env) (d : Delivery) (k : Key) (w : World)
    → Settles
        (e.commits 2)
        (surface_name d)
        (event_name d)
        k
        (body_of e d k w).1
        (attempt e (surface_name d) (event_name d) k (body_of e d k) w)
attempt-released e d k w =
    attempt-Settles (surface_name d) (event_name d) k e (body_of e d k) w (body-Completes e d k w)
