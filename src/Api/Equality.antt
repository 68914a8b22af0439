-- ===== src/Api/Equality.antt =====
-- The derived equality tests of beam-init-api/src/lib.rs.
use beam_init.Base.{◌≡◌, refl, Bool, true, Option, none, some, arith, ap}
use beam_init.Base.Text.{Text, text_eq→eq}
use beam_init.Api.{
  ExitStatus, exit_code, exit_signal, ServiceStatus, stopped, running, frozen, stopping, exited,
  error, status_eq, pty_eq, bool_eq, exit_eq,
}

bool_eq→eq : (a b : Bool) → bool_eq a b ≡ true → a ≡ b
unfolding bool_eq
bool_eq→eq a b h = ground arith

pty_eq→eq : (p q : Option Text) → pty_eq p q ≡ true → p ≡ q
unfolding pty_eq
pty_eq→eq none none h = refl
pty_eq→eq none (some q) h = cc
pty_eq→eq (some p) none h = cc
pty_eq→eq (some p) (some q) h = ap some (text_eq→eq p q h)

exit_eq→eq : (e f : ExitStatus) → exit_eq e f ≡ true → e ≡ f
unfolding exit_eq
exit_eq→eq (exit_code c) (exit_code d) h = ground arith
exit_eq→eq (exit_code c) (exit_signal s b) h = cc
exit_eq→eq (exit_signal s b) (exit_code d) h = cc
exit_eq→eq (exit_signal s b) (exit_signal t c) h = ground (arith, bool_eq→eq b c)

-- `status == other` holds of equal statuses only.
pub status_eq→eq : (s t : ServiceStatus) → status_eq s t ≡ true → s ≡ t
unfolding status_eq
status_eq→eq stopped stopped h = refl
status_eq→eq (running p x) (running q y) h = ground (arith, pty_eq→eq x y)
status_eq→eq (frozen p x) (frozen q y) h = ground (arith, pty_eq→eq x y)
status_eq→eq (stopping p a b) (stopping q c d) h = ground (arith, bool_eq→eq a c, bool_eq→eq b d)
status_eq→eq (exited e) (exited f) h = ap exited (exit_eq→eq e f h)
status_eq→eq (error s) (error t) h = ap error (text_eq→eq s t h)
status_eq→eq _ _ h = cc
