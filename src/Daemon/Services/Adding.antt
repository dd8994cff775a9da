-- ===== src/Daemon/Services/Adding.antt =====
-- What AddServices adds.
use rxd.Base.{
  ℕ, ◌≡◌, ◌≢◌, refl, sym, ap, ◌∙◌, Bool, true, false, String, List, [], ◌∷◌, ◌++◌, lookup, insert,
  Option, none, some, if◌then◌else◌, str_eq, eq_iff, arith, All, lookup-insert, append-nil, is_some,
}
use rxd.Errors.{GoError, no_service_name, adding_service_once_started}
use rxd.Daemon.Services.{
  ManagerValue, Service, DaemonService, Registered, Checked, passes, uninitialized, panics,
  check_nil_struct_pointer, Added, adds, fails, add_panics, add_service, add_services,
  chosen_manager, after_check, if_added,
}

-- A service that AddService takes: it has a name, and its manager, or the default one if it has
-- none, passes the check.
pub record IsAddable (d : ManagerValue) (service : Service) : Type 0 where
  pub named : service.name ≢ ""
  pub managed : check_nil_struct_pointer (chosen_manager d service.manager) "Manage" ≡ passes

abbrev pub added : Registered → Service → Registered
added d service = record d {
  services =
      insert service.name (record { name = service.name; runner = service.runner }) d.services;
  managers = insert service.name (chosen_manager d.default service.manager) d.managers;
}

abbrev pub added_all : Registered → List Service → Registered
added_all d [] = d
added_all d (service ∷ services) = added_all (added d service) services

-- The maps name the same services.
pub record IsPaired (d : Registered) : Type 0 where
  pub paired : (k : String) → is_some (lookup k d.services) ≡ is_some (lookup k d.managers)

-- The last service of the list with this name, or what was there.
abbrev pub latest : String → Option ℕ → List Service → Option ℕ
latest k o [] = o
latest k o (service ∷ services) =
    latest k (if str_eq service.name k then some service.runner else o) services

abbrev pub runner_of : Option DaemonService → Option ℕ
runner_of none = none
runner_of (some s) = some s.runner

pub add_service-IsAddable :
    (d : Registered) (service : Service)
    → d.started ≡ false
    → IsAddable d.default service
    → add_service d service ≡ (added d service, adds)
unfolding add_service
add_service-IsAddable d service h v = ground (arith, v.named, eq_iff service.name "", v.managed, h)

added_all-latest :
    (d : Registered) (services : List Service) (k : String)
    → runner_of (lookup k (added_all d services).services)
      ≡ latest k (runner_of (lookup k d.services)) services
added_all-latest d [] k = refl
added_all-latest d (service ∷ services) k =
    added_all-latest (added d service) services k
    ∙ ap (λ o. latest k o services)
        (ap runner_of (
            lookup-insert service.name k (record { name = service.name; runner = service.runner })
              d.services)
          ∙ gate (str_eq service.name k))
  where
    gate :
        (c : Bool)
        → runner_of (
            if c
            then some (record { name = service.name; runner = service.runner })
            else lookup k d.services)
          ≡ (if c then some service.runner else runner_of (lookup k d.services))
    gate true = refl
    gate false = refl

add_services-IsAddable :
    (d : Registered) (services more : List Service)
    → d.started ≡ false
    → All (IsAddable d.default) services
    → add_services d (services ++ more) ≡ add_services (added_all d services) more
unfolding add_services
add_services-IsAddable d [] more h v = refl
add_services-IsAddable d (service ∷ services) more h v =
    ap (λ r. if_added r (add_services r.0 (services ++ more)))
      (add_service-IsAddable d service h v.0)
    ∙ add_services-IsAddable (added d service) services more h v.1

-- Services that can all be added to a daemon that has not started are all added, without an error;
-- for each name the last service of that name is kept, a duplicate name is no error.
pub add_services-All :
    (d : Registered) (services : List Service) (k : String)
    → d.started ≡ false
    → All (IsAddable d.default) services
    → let (d', r) = add_services d services in
      (r ≡ adds)
      × (runner_of (lookup k d'.services) ≡ latest k (runner_of (lookup k d.services)) services)
      × (d' ≡ added_all d services)
add_services-All d services k h v =
    let e : add_services d services ≡ (added_all d services, adds) =
      ap (add_services d) (sym (append-nil services))
      ∙ add_services-IsAddable d services [] h v
      ∙ (unfold add_services in refl) in
    (
      ap (λ r. r.1) e,
      ap (λ r. runner_of (lookup k r.0.services)) e ∙ added_all-latest d services k,
      ap (λ r. r.0) e,
    )

-- AddServices stops at the first service that it cannot add: those before it are added, it and
-- those after it are not, and its error is returned.
pub add_services_stops :
    (d : Registered) (before : List Service) (bad : Service) (after : List Service) (e : GoError)
    → d.started ≡ false
    → All (IsAddable d.default) before
    → add_service (added_all d before) bad ≡ (added_all d before, fails e)
    → add_services d (before ++ bad ∷ after) ≡ (added_all d before, fails e)
unfolding add_services
add_services_stops d before bad after e h v q =
    add_services-IsAddable d before (bad ∷ after) h v
    ∙ ap (λ r. if_added r (add_services r.0 after)) q

pub added-IsPaired : (d : Registered) (service : Service) → IsPaired d → IsPaired (added d service)
added-IsPaired d service v = record {
  paired = λ k.
      let m = chosen_manager d.default service.manager in
      ground (
        arith,
        v.paired k,
        lookup-insert service.name k (record { name = service.name; runner = service.runner })
            d.services,
        lookup-insert service.name k m d.managers,
      );
}

after_check-IsPaired :
    (d : Registered) (service : Service) (c : Checked)
    → IsPaired d
    → IsPaired (after_check d service (chosen_manager d.default service.manager) c).0
after_check-IsPaired d service passes v = added-IsPaired d service v
after_check-IsPaired d service (uninitialized name method) v = v
after_check-IsPaired d service panics v = v

add_service-IsPaired :
    (d : Registered) (service : Service) → IsPaired d → IsPaired (add_service d service).0
unfolding add_service
add_service-IsPaired d service v = gate d.started (str_eq service.name "") _ (
    after_check-IsPaired d service
      (check_nil_struct_pointer (chosen_manager d.default service.manager) "Manage") v)
  where
    gate :
        (b c : Bool) (r : Registered × Added)
        → IsPaired r.0
        → IsPaired
            (if◌then◌else◌ {A = Registered × Added} b
              (d, fails adding_service_once_started)
              (if c then (d, fails no_service_name) else r)).0
    gate true c r h = v
    gate false true r h = v
    gate false false r h = h

-- However AddServices ends, a name has a service exactly if it has a manager, so that Start finds a
-- manager for each service.
pub add_services-IsPaired :
    (d : Registered) (services : List Service) → IsPaired d → IsPaired (add_services d services).0
unfolding add_services
add_services-IsPaired d [] v = v
add_services-IsPaired d (service ∷ services) v =
    gate (add_service d service) (add_service-IsPaired d service v)
      (add_services-IsPaired (add_service d service).0 services (add_service-IsPaired d service v))
  where
    gate :
        (r : Registered × Added)
        → IsPaired r.0
        → IsPaired (add_services r.0 services).0
        → IsPaired (if_added r (add_services r.0 services)).0
    gate (d', adds) h k = k
    gate (d', fails e) h k = h
    gate (d', add_panics) h k = h
