-- ===== src/Broadcast/System/Starts.antt =====
-- The start of a `send` of a broadcast channel: a new message number, and then a poll.
use unsync.Prelude.{
  ℕ, ◌+◌, ◌<◌, ◌≡◌, refl, sym, subst, ap, ◌∙◌, Bool, true, none, Poll, Run, returns, panic, abort,
  fault, Option,
}
use unsync.Utils.{Allocator, usize_max}
use unsync.BroadRc.{Inner, strong_get, set_value, load}
use unsync.Broadcast.Slab.{SlabOf, IsLawful}
use unsync.Broadcast.{ReceiverState, Shared, World, bump, bump_message_id, send_start}
use unsync.Broadcast.System.{
  Log, System, calls_send, polls_send, step, after, note_started, note_sent,
}
use unsync.Broadcast.System.Sound.{IsSound, Goes, system}
use unsync.Broadcast.System.Sends.{bump_message_id-next, bump-IsSound}
use unsync.Broadcast.System.Sending.{polls_send-Goes}

module _ {T W : Type 0} (al : Allocator) (task : W → ℕ) (limit : Option ℕ)
    {S : SlabOf (ReceiverState T W)} (law : IsLawful S) (will_wake : W → W → Bool)
    (sound : (v w : W) → will_wake v w ≡ true → task v ≡ task w) where
  -- The note of the start may be made before the run as well.
  after-started :
      (s : System S) (m : Option (Inner (Shared S))) (value : T) (t : ℕ)
      (x : Run (World S) (Poll ℕ))
      → after task s (λ r l. note_sent t r (note_started value l)) x
        ≡ after task (record s { memory = m; log = note_started value s.log }) (note_sent t) x
  after-started s m value t (returns r w) = refl
  after-started s m value t panic = refl
  after-started s m value t abort = refl
  after-started s m value t fault = refl

  -- It goes as a poll with the new number does.
  started-polls :
      (inner : Shared S) (value : T) (cx : W) (l : Log T)
      → bump_message_id inner.id ≡ l.bumps + 1
      → step task al will_wake
          (system inner true (record l { sending = none }))
          (calls_send value cx)
        ≡ step task al will_wake
            (system (record inner { id = l.bumps + 1 }) true (note_started value l))
            (polls_send cx)
  unfolding step send_start bump strong_get set_value load
  started-polls inner value cx l next = rw next (
      after-started (system inner true (record l { sending = none }))
        (system (record inner { id = l.bumps + 1 }) true l).memory value (task cx) _)

  pub calls_send-Goes :
      (inner : Shared S) (value : T) (cx : W) (l : Log T)
      → IsSound al task limit inner (system inner true (record l { sending = none }))
      → l.bumps < usize_max
      → Goes al task limit (
          step task al will_wake
            (system inner true (record l { sending = none }))
            (calls_send value cx))
  calls_send-Goes inner value cx l v small =
      let next : bump_message_id inner.id ≡ l.bumps + 1 =
        ap bump_message_id v.good.number ∙ bump_message_id-next l.bumps small in
      subst (Goes al task limit) (sym (started-polls inner value cx l next)) (
        polls_send-Goes al task limit law will_wake sound (record inner { id = l.bumps + 1 }) value
          cx (note_started value l)
          (bump-IsSound al task limit law will_wake sound inner value l v small))
