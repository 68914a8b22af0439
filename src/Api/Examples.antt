-- ===== src/Api/Examples.antt =====
-- The text form of a status kind at a concrete input.
use beam_init.Base.{◌≡◌, ◌↔◌, some}
use beam_init.Base.Text.{codes}
use beam_init.Api.Kind.{ServiceStatusKind, from_str, to_string, from_str-to_string_iff}

from_str-to_string_iff_example :
    (from_str (codes "frozen") ≡ some ServiceStatusKind.frozen)
    ↔ (codes "frozen" ≡ to_string ServiceStatusKind.frozen)
from_str-to_string_iff_example = from_str-to_string_iff (codes "frozen") ServiceStatusKind.frozen
