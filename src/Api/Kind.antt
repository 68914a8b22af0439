-- ===== src/Api/Kind.antt =====
-- `ServiceStatusKind` of beam-init-api/src/lib.rs with `Display` and `FromStr`.
use beam_init.Base.{◌≡◌, refl, ◌↔◌, Bool, true, false, Option, none, some, arith, if◌then◌else◌}
use beam_init.Base.Text.{Text, codes, text_eq, text_eq→eq}

pub data ServiceStatusKind : Type 0 where
  stopped running frozen stopping exited error : ServiceStatusKind

-- `impl Display for ServiceStatusKind`.
unfoldable pub to_string : ServiceStatusKind → Text
to_string stopped = codes "stopped"
to_string running = codes "running"
to_string frozen = codes "frozen"
to_string stopping = codes "stopping"
to_string exited = codes "exited"
to_string error = codes "error"

-- `impl FromStr for ServiceStatusKind`; `none` is `ParseServiceStatusKindError`.
unfoldable pub from_str : Text → Option ServiceStatusKind
from_str value =
    if text_eq value (codes "stopped")
    then some stopped
    else if text_eq value (codes "running")
    then some running
    else if text_eq value (codes "frozen")
    then some frozen
    else if text_eq value (codes "stopping")
    then some stopping
    else if text_eq value (codes "exited")
    then some exited
    else if text_eq value (codes "error")
    then some error
    else none

-- `kind == other`, derived.
unfoldable pub kind_eq : ServiceStatusKind → ServiceStatusKind → Bool
kind_eq stopped stopped = true
kind_eq running running = true
kind_eq frozen frozen = true
kind_eq stopping stopping = true
kind_eq exited exited = true
kind_eq error error = true
kind_eq _ _ = false

parsed : (k : ServiceStatusKind) (value : Text) → from_str value ≡ some k → value ≡ to_string k
unfolding from_str to_string
parsed k value h = ground (
  arith,
  text_eq→eq value (codes "stopped"),
  text_eq→eq value (codes "running"),
  text_eq→eq value (codes "frozen"),
  text_eq→eq value (codes "stopping"),
  text_eq→eq value (codes "exited"),
  text_eq→eq value (codes "error"),
)

printed : (k : ServiceStatusKind) → from_str (to_string k) ≡ some k
unfolding from_str to_string text_eq
printed stopped = refl
printed _ = refl

-- A text parses as a kind exactly when it is the printed form of that kind: what `Display` prints
-- is parsed back by `FromStr`, and nothing else is accepted.
pub from_str-to_string_iff :
    (value : Text) (k : ServiceStatusKind) → (from_str value ≡ some k) ↔ (value ≡ to_string k)
from_str-to_string_iff value k = (parsed k value, λ e. rw e (printed k))
