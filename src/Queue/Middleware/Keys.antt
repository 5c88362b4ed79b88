-- ===== src/Queue/Middleware/Keys.antt =====
-- core/queue/runtime/middleware: the functions of lock.go and concurrency.go that give a message its
-- keys, and the fields of StaticLockKey and StaticConcurrencyKey.
use sdkit.Base.{
  String, true, false, Option, none, some, is_blank, ◌≡◌, Bool-cases, inl, inr, if◌then◌else◌,
}
use sdkit.Base.Int.{ℤ, pos, ltb_ℤ}
use sdkit.Queue.Error.{Error, nil, foreign}
use sdkit.Queue.Message.{
  Message, Value, text, int, duration, flag, opaque, message_metadata_value,
  message_metadata_string, message_metadata_duration, text_of,
}

-- What a LockKeyFunc returns, `none` for a lock that does not apply.
abbrev pub LockKey : Type 0
LockKey = Error × Option (String × ℤ)

-- The error of a lock without a time to live.
abbrev pub ttl_required : Error
ttl_required = foreign 2

-- The key with its time to live, which has to be positive.
abbrev pub with_ttl : String → Option ℤ → LockKey
with_ttl key none = (ttl_required, none)
with_ttl key (some ttl) = if ltb_ℤ (pos 0) ttl then (nil, some (key, ttl)) else (ttl_required, none)

abbrev pub timed : Message → Option String → LockKey
timed msg none = (nil, none)
timed msg (some key) = with_ttl key (message_metadata_duration msg "queue.lock.ttl")

-- messageLockKey
unfoldable pub message_lock_key : Option Message → LockKey
unfolding message_metadata_value
message_lock_key none = (nil, none)
message_lock_key (some msg) = timed msg (text_of (message_metadata_value msg "queue.lock.key"))

-- messageConcurrencyKey, which always applies
abbrev pub or_type : Message → Option String → String
or_type msg none = if is_blank msg.type then "queue" else msg.type
or_type msg (some key) = key

unfoldable pub message_concurrency_key : Option Message → String
unfolding message_metadata_string
message_concurrency_key none = "queue"
message_concurrency_key (some msg) =
    or_type msg (message_metadata_string msg "queue.concurrency.key")

unfoldable pub static_lock_key : String → ℤ → LockKey
static_lock_key key ttl = (nil, if is_blank key then none else some (key, ttl))

unfoldable pub static_concurrency_key : String → Error × Option String
static_concurrency_key key = (nil, if is_blank key then none else some key)

-- No lock, or a key that is not blank with a time to live that is positive.
abbrev pub IsUsable : Option (String × ℤ) → Type 0
IsUsable none = Unit
IsUsable (some (key, ttl)) = (is_blank key ≡ false) × (ltb_ℤ (pos 0) ttl ≡ true)

with_ttl-IsUsable :
    (key : String) (o : Option ℤ) → is_blank key ≡ false → IsUsable (with_ttl key o).1
with_ttl-IsUsable key none h = tt
with_ttl-IsUsable key (some ttl) h = elim (Bool-cases (ltb_ℤ (pos 0) ttl)) [
  | inl p ↦ rw p (h, p)
  | inr p ↦ rw p tt
]

timed-IsUsable : (msg : Message) (o : Option Value) → IsUsable (timed msg (text_of o)).1
timed-IsUsable msg none = tt
timed-IsUsable msg (some (text s)) = elim (Bool-cases (is_blank s)) [
  | inl p ↦ rw p tt
  | inr p ↦ rw p (with_ttl-IsUsable s (message_metadata_duration msg "queue.lock.ttl") p)
]
timed-IsUsable msg (some (int n)) = tt
timed-IsUsable msg (some (duration d)) = tt
timed-IsUsable msg (some (flag b)) = tt
timed-IsUsable msg (some (opaque n)) = tt

-- A message asks for no lock, or for one with a key and a positive time to live.
message_lock_key-IsUsable : (msg : Option Message) → IsUsable (message_lock_key msg).1
unfolding message_lock_key
message_lock_key-IsUsable none = tt
message_lock_key-IsUsable (some msg) =
    timed-IsUsable msg (message_metadata_value msg "queue.lock.key")
