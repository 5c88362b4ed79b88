-- ===== src/Realtime/Identity.antt =====
-- core/realtime/identity.go and client.go. Metadata, events and the channel of a client are left out,
-- which the code here does not read. Normalize changes its receiver: the value is the changed one.
pub mod Settled
use sdkit.Base.{
  String, Bool, true, false, not, ◌&&◌, ◌||◌, Option, none, some, is_blank, if◌then◌else◌,
}
use sdkit.Base.Text.{trim_space}
use sdkit.Base.Int.{ℤ}

-- `kind` is a string in Go.
pub record Identity : Type 0 where
  pub id : String
  pub type : String
  pub device_id : String
  pub platform : String
  pub subject : String
  pub tenant_id : ℤ
  pub kind : String

pub record Client : Type 0 where
  pub id : String
  pub identity : Option Identity
  pub user_id : String
  pub tenant_id : ℤ
  pub created_at : Option ℤ
  pub last_active_at : ℤ

unfoldable pub new_user_identity : String → ℤ → Identity
unfolding trim_space
new_user_identity user_id tenant_id =
    let id = trim_space user_id in
    let kind = if is_blank id then "" else "user" in
    record {
      id = id;
      type = kind;
      device_id = "";
      platform = "";
      subject = "";
      tenant_id = tenant_id;
      kind = kind;
    }

abbrev pub trimmed : Identity → Identity
unfolding trim_space
trimmed i = record i {
  id = trim_space i.id;
  type = trim_space i.type;
  device_id = trim_space i.device_id;
  platform = trim_space i.platform;
  subject = trim_space i.subject;
}

-- The `if`s of Normalize, in their order.
abbrev pub with_kind : Identity → Identity
with_kind i = record i { kind = if is_blank i.kind && not (is_blank i.id) then "user" else i.kind }

abbrev pub with_type : Identity → Identity
with_type i = record i {
  type = if is_blank i.type && not (is_blank i.kind) then i.kind else i.type;
}

abbrev pub with_id : Identity → Identity
with_id i = record i { id = if is_blank i.id && not (is_blank i.subject) then i.subject else i.id }

abbrev pub with_subject : Identity → Identity
with_subject i = record i { subject = if is_blank i.subject then i.id else i.subject }

-- Normalize, for an identity that is not nil
unfoldable pub normalize : Identity → Identity
unfolding trimmed
normalize i = with_subject (with_id (with_type (with_kind (trimmed i))))

-- Authenticated, for an identity that is not nil
unfoldable pub authenticated : Identity → Bool
unfolding normalize
authenticated i = let i' = normalize i in not (is_blank i'.id) || not (is_blank i'.subject)

-- CurrentIdentity, for a client that is not nil: Authenticated normalizes the identity before
-- Normalize does.
abbrev pub current : String → ℤ → Option Identity → Identity
unfolding new_user_identity normalize authenticated
current user_id tenant_id none = new_user_identity user_id tenant_id
current user_id tenant_id (some i) =
    if authenticated i then normalize (normalize i) else new_user_identity user_id tenant_id

unfoldable pub current_identity : Client → Identity
unfolding current
current_identity c = current c.user_id c.tenant_id c.identity
