-- ===== src/Services/Invariant/Create.antt =====
-- `create_service` of services.rs: when it succeeds, and the invariant of the manager.
use beam_init.Base.{
  length, ◌≤◌, ap, ◌↔◌, inr, Option-cases, inl, ◌⊎◌, [], ◌∷◌, ◌≡◌, ◌≢◌, refl, false, Option, none,
  some, arith,
}
use beam_init.Base.Text.{contains, Text}
use beam_init.Base.Map
use beam_init.Services.Types.{service_exists, ServiceConfig, Service, ServiceManager, shutting_down}
use beam_init.Services.Outcome.{Outcome, ok, err, panic, ◌>>◌, fail_if}
use beam_init.Services.Service.{api_status}
use beam_init.Services.Manager.{
  valid_entry, create_service, created, add_service, new_service, check_name, validate,
}
use beam_init.Services.Invariant.{
  store, ServiceError, IsValid, IsValid-but, IsSafe, store-IsSafe, same-IsSafe,
}

validate-returns : (env : Map.Map Text) → validate env ≢ panic
unfolding validate
validate-returns [] = λ e. cc
validate-returns ((k, v) ∷ env) = ground (arith, validate-returns env)

add_service-IsSafe :
    (name : Text) (config : ServiceConfig) (m : ServiceManager) (found : Option Service)
    → IsValid m
    → check_name name ≡ ok tt
    → validate config.env ≡ ok tt
    → m.shutdown ≡ false
    → IsSafe name m (add_service name config m found)
unfolding add_service new_service api_status
add_service-IsSafe name config m (some s) v n c up = same-IsSafe name v (λ e. cc)
add_service-IsSafe name config m none v n c up =
    store-IsSafe name m (new_service config m) m.world (IsValid-but name v) (λ e. cc)
      (record {
        named = n;
        env_valid = c;
        published = refl;
        probed = refl;
        connected = tt;
        settled = λ d. tt;
      })

-- The checks that `create_service` makes first, all passed.
checks_passed :
    (name : Text) (config : ServiceConfig) (m : ServiceManager) {u : Unit {0}}
    → (fail_if m.shutdown shutting_down >> (check_name name >> validate config.env)) ≡ ok u
    → (m.shutdown ≡ false) × (check_name name ≡ ok tt) × (validate config.env ≡ ok tt)
checks_passed name config m h = ground arith

checks-returns :
    (name : Text) (config : ServiceConfig) (m : ServiceManager)
    → (fail_if m.shutdown shutting_down >> (check_name name >> validate config.env)) ≢ panic
unfolding check_name
checks-returns name config m = ground (arith, validate-returns config.env)

created-IsSafe :
    (name : Text) (config : ServiceConfig) (m : ServiceManager) (r : Outcome (Unit {0}))
    → IsValid m
    → r ≢ panic
    → (r ≡ ok tt → (m.shutdown ≡ false) × (check_name name ≡ ok tt) × (validate config.env ≡ ok tt))
    → IsSafe name m (created name config m r)
unfolding created
created-IsSafe name config m (err e) v h k = same-IsSafe name v (λ p. cc)
created-IsSafe name config m panic v h k = absurd (h refl)
created-IsSafe name config m (ok u) v h k =
    let (up, n, c) = k refl in add_service-IsSafe name config m (Map.get name m.services) v n c up

pub create_service-IsSafe :
    (name : Text) (config : ServiceConfig) (m : ServiceManager)
    → IsValid m
    → IsSafe name m (create_service name config m)
unfolding create_service
create_service-IsSafe name config m v =
    created-IsSafe name config m _ v (checks-returns name config m)
      (λ h. checks_passed name config m h)

-- Either nothing happens, or every check passed and the new service stands under its name.
abbrev pub IsRefused : Text → ServiceConfig → ServiceManager → Type 0
IsRefused name config m = (e : ServiceError) × (create_service name config m ≡ (err e, m))

pub record IsAdded (name : Text) (config : ServiceConfig) (m : ServiceManager) : Type 0 where
  pub added : create_service name config m ≡ (ok tt, store name (new_service config m) m.world m)
  pub up : m.shutdown ≡ false
  pub named : check_name name ≡ ok tt
  pub env_valid : validate config.env ≡ ok tt
  pub vacant : Map.get name m.services ≡ none

pub create_service_cases :
    (name : Text) (config : ServiceConfig) (m : ServiceManager)
    → IsRefused name config m ⊎ IsAdded name config m
unfolding create_service created add_service
create_service_cases name config m = go _ refl
  where
    go :
        (r : Outcome (Unit {0}))
        → (fail_if m.shutdown shutting_down >> (check_name name >> validate config.env)) ≡ r
        → IsRefused name config m ⊎ IsAdded name config m
    go (err e) h = inl (e, rw (h, created))
    go panic h = absurd (checks-returns name config m h)
    go (ok u) h =
        let (up, n, c) = checks_passed name config m h in
        elim (Option-cases (Map.get name m.services)) [
          | inl vacant ↦ inr (record {
            added = rw (h, created, vacant) refl;
            up = up;
            named = n;
            env_valid = c;
            vacant = vacant;
          })
          | inr (s, taken) ↦ inl (service_exists name, rw (h, created, taken) refl)
        ]

-- A variable that a process can be handed: with a name, without `=` in it, and without NUL bytes.
abbrev pub IsVariable : (key value : Text) → Type 0
IsVariable key value =
    (1 ≤ length key)
    × (contains 61 key ≡ false)
    × (contains 0 key ≡ false)
    × (contains 0 value ≡ false)

abbrev pub AllVariables : Map.Map Text → Type 0
AllVariables [] = Unit {0}
AllVariables ((key, value) ∷ env) = IsVariable key value × AllVariables env

valid_entry_iff : (key value : Text) → (valid_entry key value ≡ ok tt) ↔ IsVariable key value
unfolding valid_entry
valid_entry_iff key value = (
  λ h. (ground (arith, h), ground (arith, h), ground (arith, h), ground (arith, h)),
  λ (a, b, c, d). ground (arith, a, b, c, d),
)

then_ok : (a b : Outcome (Unit {0})) → (a >> b) ≡ ok tt → (a ≡ ok tt) × (b ≡ ok tt)
then_ok (ok u) b h = (refl, h)
then_ok (err e) b h = absurd cc
then_ok panic b h = absurd cc

validate-AllVariables : (env : Map.Map Text) → validate env ≡ ok tt → AllVariables env
unfolding validate
validate-AllVariables [] h = tt
validate-AllVariables ((key, value) ∷ env) h =
    let (first, rest) = then_ok (valid_entry key value) (validate env) h in
    ((valid_entry_iff key value).0 first, validate-AllVariables env rest)

AllVariables-validate : (env : Map.Map Text) → AllVariables env → validate env ≡ ok tt
unfolding validate
AllVariables-validate [] h = refl
AllVariables-validate ((key, value) ∷ env) (first, rest) =
    rw ((valid_entry_iff key value).1 first, AllVariables-validate env rest) refl

check_name_iff :
    (name : Text) → (check_name name ≡ ok tt) ↔ ((1 ≤ length name) × (length name ≤ 255))
unfolding check_name
check_name_iff name = (λ h. (ground (arith, h), ground (arith, h)), λ (a, b). ground (arith, a, b))

-- What a service must meet to be created.
abbrev pub CanCreate : Text → ServiceConfig → ServiceManager → Type 0
CanCreate name config m =
    (m.shutdown ≡ false)
    × (1 ≤ length name)
    × (length name ≤ 255)
    × AllVariables config.env
    × (Map.get name m.services ≡ none)

creatable :
    (name : Text) (config : ServiceConfig) (m : ServiceManager)
    → CanCreate name config m
    → (create_service name config m).0 ≡ ok tt
unfolding create_service created add_service
creatable name config m (up, least, most, variables, vacant) =
    rw
      (
        up,
        (check_name_iff name).1 (least, most),
        AllVariables-validate config.env variables,
        vacant,
      )
      refl

-- Creating a service succeeds exactly if there is no shutdown, the name has 1 to 255 bytes, every
-- variable of the environment has a name, no `=` in it and no NUL byte in it or in its value, and no
-- service has the name. Then the new service stands under its name, stopped, and nothing else
-- changes; otherwise it gives an error and leaves the manager as it was.
pub create_service_lem :
    (name : Text) (config : ServiceConfig) (m : ServiceManager)
    → (((create_service name config m).0 ≡ ok tt) ↔ CanCreate name config m)
      × (IsRefused name config m
          ⊎ (create_service name config m ≡ (ok tt, store name (new_service config m) m.world m)))
create_service_lem name config m = elim (create_service_cases name config m) [
  | inl (e, h) ↦ ((λ k. absurd (not_ok e (ap (λ r. r.0) h) k), creatable name config m), inl (e, h))
  | inr i ↦
      let (least, most) = (check_name_iff name).0 i.named in
      let can : CanCreate name config m =
        (i.up, least, most, validate-AllVariables config.env i.env_valid, i.vacant) in
      ((λ k. can, creatable name config m), inr i.added)
]
  where
    not_ok : {r : Outcome (Unit {0})} (e : ServiceError) → r ≡ err e → r ≢ ok tt
    not_ok e h k = cc
