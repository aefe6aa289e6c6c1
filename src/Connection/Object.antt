-- ===== src/Connection/Object.antt =====
-- TcpConnection.h: the connection as an object, and its callbacks.
use moduo_write.Common.{ℕ, Bool, true, false, Option, none, some, ◌==◌, Outcome, bad_call}
use moduo_write.Buffer.{Buffer}
use moduo_write.Channel.{Channel}
use moduo_write.EventLoop.{EventLoop}

-- `enum StateE`, held in an atomic int.
pub data StateE : Type 0 where
  k_connecting k_connected k_disconnecting k_disconnected : StateE

abbrev pub number : StateE → ℕ
number k_connecting = 0
number k_connected = 1
number k_disconnecting = 2
number k_disconnected = 3

abbrev pub state_eq : StateE → StateE → Bool
state_eq a b = number a == number b

-- `class TcpConnection`, less its name, its addresses and the callbacks. The socket's descriptor is
-- the channel's.
pub record TcpConnection : Type 0 where
  pub address : ℕ
  pub state : StateE
  pub reading : Bool
  pub channel : Channel
  pub high_water_mark : ℕ
  pub input_buffer : Buffer
  pub output_buffer : Buffer

-- What the connection's code can reach; `tid` is the running thread.
pub record World (K : Type 0) : Type 0 where
  pub conn : TcpConnection
  pub loop : EventLoop
  pub kernel : K
  pub tid : ℕ

-- The callbacks set by the user and the server. An empty `std::function` is `none`.
pub record Callbacks (W : Type 0) : Type 0 where
  pub connection_callback : Option (W → Outcome W)
  pub message_callback : Option (W → Outcome W)
  pub write_complete_callback : Option (W → Outcome W)
  pub high_water_mark_callback : Option (ℕ → W → Outcome W)
  pub close_callback : Option (W → Outcome W)

-- The setters of the callbacks; the last also sets the mark.
module _ {W : Type 0} where
  unfoldable pub set_connection_callback : (W → Outcome W) → Callbacks W → Callbacks W
  set_connection_callback f cb = record cb { connection_callback = some f }

  unfoldable pub set_message_callback : (W → Outcome W) → Callbacks W → Callbacks W
  set_message_callback f cb = record cb { message_callback = some f }

  unfoldable pub set_write_complete_callback : (W → Outcome W) → Callbacks W → Callbacks W
  set_write_complete_callback f cb = record cb { write_complete_callback = some f }

  unfoldable pub set_close_callback_of : (W → Outcome W) → Callbacks W → Callbacks W
  set_close_callback_of f cb = record cb { close_callback = some f }

  unfoldable pub set_high_water_mark_callback :
      (ℕ → W → Outcome W) → ℕ → Callbacks W → TcpConnection → Callbacks W × TcpConnection
  set_high_water_mark_callback f mark cb c =
      (record cb { high_water_mark_callback = some f }, record c { high_water_mark = mark })

-- A call without a test: an empty function throws.
unfoldable pub call : {W : Type 0} → Option (W → Outcome W) → W → Outcome W
call none w = bad_call
call (some f) w = f w

abbrev pub is_callable {ℓ} : {A : Type ℓ} → Option A → Bool
is_callable none = false
is_callable (some f) = true
