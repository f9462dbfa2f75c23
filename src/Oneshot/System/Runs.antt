-- ===== src/Oneshot/System/Runs.antt =====
-- Whatever the owners of the two ends of a oneshot channel do, in any order.
use unsync.Prelude.{ℕ, ◌≡◌, refl, sym, subst, ◌∙◌, Bool, true, false, Option, none, some}
use unsync.Utils.Sleepers.{nobody}
use unsync.BiRc.{new}
use unsync.Oneshot.{Shared, channel}
use unsync.Oneshot.System.{
  Log, System, Call, calls_send, polls, drops_sender, drops_receiver, admits, opened, step, Reach,
  begins, goes,
}
use unsync.Oneshot.System.Sound.{
  IsSound, Goes, system, shared, send-Goes, poll-Goes, drop_sender-Goes, drop_receiver-Goes,
}

module _ {T W : Type 0} (task : W → ℕ) (will_wake : W → W → Bool)
    (sound : (v w : W) → will_wake v w ≡ true → task v ≡ task w) where
  system-Goes :
      (inner : Shared T W) (a b : Bool) (l : Log T) (c : Call T W)
      → admits (system task inner a b l) c ≡ true
      → IsSound task inner (system task inner a b l)
      → Goes task (step task will_wake (system task inner a b l) c)
  unfolding admits
  system-Goes inner false b l (calls_send value) h v = cc
  system-Goes inner true b l (calls_send value) h v =
      send-Goes task will_wake sound inner value b l v
  system-Goes inner a false l (polls cx) h v = cc
  system-Goes inner a true l (polls cx) h v =
      poll-Goes task will_wake sound inner.waker inner.buf cx a l v
  system-Goes inner false b l drops_sender h v = cc
  system-Goes inner true b l drops_sender h v = drop_sender-Goes task will_wake sound inner b l v
  system-Goes inner a false l drops_receiver h v = cc
  system-Goes inner a true l drops_receiver h v =
      drop_receiver-Goes task will_wake sound inner a l v

  admits-memory :
      (inner : Shared T W) (s : System T W) (c : Call T W)
      → admits s c ≡ admits (system task inner s.sender s.receiver s.log) c
  unfolding admits
  admits-memory inner s (calls_send value) = refl
  admits-memory inner s (polls cx) = refl
  admits-memory inner s drops_sender = refl
  admits-memory inner s drops_receiver = refl

  -- Where `will_wake` holds only of wakers of one task, every call on a sound channel that
  -- ownership admits returns: it does not panic, and touches no memory that is
  -- gone. It keeps what holds of the channel.
  pub call-Goes :
      (inner : Shared T W) (s : System T W) (c : Call T W)
      → admits s c ≡ true
      → IsSound task inner s
      → (inner' : Shared T W) × ((t : System T W) × (step task will_wake s c ≡ some t)
          × IsSound task inner' t)
  call-Goes inner s c h v =
      subst (λ m. Goes task (step task will_wake (record s { memory = m }) c)) (sym v.memory)
        (system-Goes inner s.sender s.receiver s.log c (sym (admits-memory inner s c) ∙ h)
          (record { memory = refl; order = v.order; once = v.once; rx = v.rx }))

  abbrev SoundIf : Option (System T W) → Type 0
  SoundIf none = Unit {0}
  SoundIf (some s) = (inner : Shared T W) × IsSound task inner s

  -- Where `will_wake` holds only of wakers of one task, and however the owners of the two ends use
  -- them: at most one message is accepted, and none
  -- after the sender is gone; what was accepted is what was received, or what is still in the
  -- buffer, never both; the memory is there as long as one of the ends is; and a task sleeps in
  -- the receiver only while there is no message and the sender is there, and then its waker is
  -- registered.
  pub opened-IsSound :
      {s : System T W} → Reach task will_wake s → (inner : Shared T W) × IsSound task inner s
  unfolding opened channel new
  opened-IsSound begins =
      (shared task none none, record { memory = refl; order = refl; once = refl; rx = nobody })
  opened-IsSound (goes {s} {t} c r h e) =
      let (i, before) = opened-IsSound r in
      let (i', (u, e', after)) = call-Goes i s c h before in subst SoundIf (sym e' ∙ e) (i', after)
