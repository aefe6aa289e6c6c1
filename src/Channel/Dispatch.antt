-- ===== src/Channel/Dispatch.antt =====
-- Channel.cc, `handleEvent`: which callbacks run, and in which order.
use moduo_write.Common.{
  ℕ, ◌≡◌, refl, sym, ap, fun_ext, Bool, ◌&&◌, ◌||◌, not, Option, none, some, List, [], ◌∷◌, arith,
  if◌then◌else◌, Outcome, done, exited, bad_call, undefined, bind,
}
use moduo_write.System.{Mask, mask_and, mask_or, is_set, in_bit, pri_bit, out_bit, err_bit, hup_bit}
use moduo_write.Channel.{
  Channel, Callbacks, call_if_set, call_when, handle_event_with_guard, handle_event,
}

pub data Kind : Type 0 where
  close error read write : Kind

-- What each kind of callback is run for.
abbrev pub is_due : Kind → Mask → Bool
is_due close m = m.epollhup && not m.epollin
is_due error m = m.epollerr
is_due read m = m.epollin || m.epollpri
is_due write m = m.epollout

abbrev pub callback_of : {W : Type 0} → Callbacks W → Kind → Option (W → Outcome W)
callback_of cb close = cb.close_callback
callback_of cb error = cb.error_callback
callback_of cb read = cb.read_callback
callback_of cb write = cb.write_callback

-- A callback that is not set is passed over.
abbrev pub perform : {W : Type 0} → Option (W → Outcome W) → W → Outcome W
perform none w = done w
perform (some f) w = f w

same_call : {W : Type 0} (o : Option (W → Outcome W)) (w : W) → call_if_set o w ≡ perform o w
unfolding call_if_set
same_call none w = refl
same_call (some f) w = refl

-- The callbacks of these kinds that are due, one after another.
unfoldable pub run_due : {W : Type 0} → Callbacks W → Mask → List Kind → W → Outcome W
run_due cb m [] w = done w
run_due cb m (k ∷ ks) w =
    bind (if is_due k m then perform (callback_of cb k) w else done w) λ w'. run_due cb m ks w'

bind-done : {A : Type 0} (m : Outcome A) → bind m (λ a. done a) ≡ m
bind-done (done a) = refl
bind-done exited = refl
bind-done bad_call = refl
bind-done undefined = refl

is_due-close :
    (m : Mask) → is_set (mask_and m hup_bit) && not (is_set (mask_and m in_bit)) ≡ is_due close m
is_due-close m = ground arith

is_due-error : (m : Mask) → is_set (mask_and m err_bit) ≡ is_due error m
is_due-error m = ground arith

is_due-read : (m : Mask) → is_set (mask_and m (mask_or in_bit pri_bit)) ≡ is_due read m
is_due-read m = ground arith

is_due-write : (m : Mask) → is_set (mask_and m out_bit) ≡ is_due write m
is_due-write m = ground arith

guard-run_due :
    {W : Type 0} (cb : Callbacks W) (m : Mask) (w : W)
    → handle_event_with_guard cb m w ≡ run_due cb m (close ∷ error ∷ read ∷ write ∷ []) w
unfolding handle_event_with_guard run_due call_when
guard-run_due {W = W} cb m w =
    rw (same_calls, is_due-close m, is_due-error m, is_due-read m, is_due-write m)
      (ap (λ f. bind (first w) λ w₁. bind (second w₁) λ w₂. bind (third w₂) f)
        (fun_ext
          λ w₃. sym (bind-done (if m.epollout then perform cb.write_callback w₃ else done w₃))))
  where
    same_calls : call_if_set {W = W} ≡ perform
    same_calls = fun_ext λ o. fun_ext λ w₀. same_call o w₀

    first : W → Outcome W
    first w₀ = if is_due close m then perform cb.close_callback w₀ else done w₀

    second : W → Outcome W
    second w₁ = if m.epollerr then perform cb.error_callback w₁ else done w₁

    third : W → Outcome W
    third w₂ = if is_due read m then perform cb.read_callback w₂ else done w₂

-- `handleEvent` runs the callbacks that are due in the order close, error, read, write: close where
-- the peer has hung up and nothing is left to read, read where there is data, urgent or not. One that
-- throws stops it, one that is not set is passed over, and if the tied object is gone none runs.
pub handle_event-in_order :
    {W : Type 0} (alive : ℕ → Bool) (cb : Callbacks W) (c : Channel) (w : W)
    → handle_event alive cb c w ≡ (
        if not c.tied || alive c.tie
        then run_due cb c.revents (close ∷ error ∷ read ∷ write ∷ []) w
        else done w)
unfolding handle_event
handle_event-in_order alive cb c w = ground (arith, guard-run_due cb c.revents w)
