-- ===== src/Realtime/Registry/Steps.antt =====
-- Sequences of the operations of pkg/realtime/memory/registry.go.
pub mod Rooms
pub mod Users
use sdkit.Base.{◌≡◌, ℕ, String, Bool, false, Option, List, [], ◌∷◌}
use sdkit.Base.Int.{ℤ}
use sdkit.Realtime.Identity.{Identity, Client}
use sdkit.Realtime.Registry.{Store, add, remove, online, offline}
use sdkit.Realtime.Registry.Rooms.{heartbeat, join, leave}

-- A call of an operation that changes the store, with its arguments.
pub data Operation : Type 0 where
  adding : Bool → ℤ → Option Client → Operation
  removing : String → Operation
  going_online : Option ℕ → ℤ → String → Option Identity → Operation
  going_offline : Option ℕ → String → Operation
  beating : Option ℕ → ℤ → String → Operation
  joining leaving : Option ℕ → String → String → Operation

unfoldable pub perform : Operation → Store → Store
unfolding add remove online offline heartbeat join leave
perform (adding aliased now c) s = (add aliased now c s).1
perform (removing id) s = remove id s
perform (going_online ctx now id identity) s = (online ctx now id identity s).1
perform (going_offline ctx id) s = (offline ctx id s).1
perform (beating ctx now id) s = (heartbeat ctx now id s).1
perform (joining ctx room client) s = (join ctx room client s).1
perform (leaving ctx room client) s = (leave ctx room client s).1

unfoldable pub run : List Operation → Store → Store
unfolding perform
run [] s = s
run (op ∷ ops) s = run ops (perform op s)

-- A client that is given to Add is not the object that is registered under its id.
abbrev pub IsFresh : Operation → Type 0
IsFresh (adding aliased now c) = aliased ≡ false
IsFresh _ = Unit
