-- ===== src/Daemon/Start/Launch.antt =====
-- The services that Start launches, and the updates that each of them leaves.
use text.Mathlib.TextPositions.{eq_refl}
use rxd.Base.{
  ◌≡◌, ◌≢◌, refl, sym, ap, subst, ◌∙◌, Bool, true, false, ◌&&◌, String, List, [], ◌∷◌, ◌++◌, Dict,
  lookup, Option, none, some, if◌then◌else◌, All-append, IsMap, Entries, str_eq, eq_iff, append-nil,
  is_some, if-true,
}
use rxd.States.{StateUpdate, ServiceStateUpdate, exit}
use rxd.Manager.{Status, returned, waiting, panicked, recovered, Trace}
use rxd.Manager.Protocol.{quiet, broken, entered, inside, phase, Told}
use rxd.Daemon.Services.{DaemonService, ManagerValue}
use rxd.Daemon.Start.{sent, recovery, service_updates, launch, launch_one, is_over, all_over}
use rxd.Daemon.Start.Updates.{final, final-append, AreNamed, sent-AreNamed, final-sent, entering}

-- A run of a manager that tells the watcher the truth and is over, by returning or by a panic that
-- it does not recover itself.
abbrev pub IsEnded : String → Trace → Status → Type 0
IsEnded k t returned = Told (phase k quiet t.effects) returned
IsEnded k t (panicked v) = Told (phase k quiet t.effects) (panicked v)
IsEnded k t waiting = ⊥
IsEnded k t (recovered v) = ⊥

-- What AddServices gives each service, and how its run ends.
pub record IsLaunched (managers : Dict ManagerValue) (runs : String → Trace) (k : String)
    (s : DaemonService) : Type 0 where
  pub named : s.name ≡ k
  pub managed : is_some (lookup k managers) ≡ true
  pub ended : IsEnded k (runs k) (runs k).status

told_ne_broken :
    (k : String) (t : Trace) (st : Status) → IsEnded k t st → phase k quiet t.effects ≢ broken
told_ne_broken k t returned h e = let x : broken ≡ entered exit = sym e ∙ h in cc
told_ne_broken k t (panicked v) (s, h) e = let x : broken ≡ inside s = sym e ∙ h in cc
told_ne_broken k t waiting h e = h
told_ne_broken k t (recovered v) h e = h

recovery-AreNamed : (k : String) (st : Status) → AreNamed k (recovery k st)
recovery-AreNamed k returned = tt
recovery-AreNamed k (panicked v) = (refl, tt)
recovery-AreNamed k waiting = tt
recovery-AreNamed k (recovered v) = tt

service_updates-AreNamed :
    (k : String) (t : Trace) → IsEnded k t t.status → AreNamed k (service_updates k t)
unfolding service_updates
service_updates-AreNamed k t h =
    All-append (λ u. u.name ≡ k) (sent t.effects) (recovery k t.status)
      (sent-AreNamed k quiet t.effects (told_ne_broken k t t.status h))
      (recovery-AreNamed k t.status)

-- Whether it returned or panicked, the service's updates end with the entering of Exit.
pub final-service_updates :
    (k : String) (t : Trace) (o : Option StateUpdate)
    → IsEnded k t t.status
    → final k o (service_updates k t) ≡ some (entering exit)
unfolding service_updates
final-service_updates k t o h = gate t.status h
  where
    gate :
        (st : Status)
        → IsEnded k t st
        → final k o (sent t.effects ++ recovery k st) ≡ some (entering exit)
    gate returned h =
        ap (final k o) (append-nil (sent t.effects))
        ∙ final-sent k t.effects quiet o exit (λ s e. cc) h
    gate (panicked v) h =
        final-append k (sent t.effects) (recovery k (panicked v)) o
        ∙ if-true (str_eq k k) _ _ (eq_refl k)
    gate waiting h = absurd h
    gate (recovered v) h = absurd h

module _ (managers : Dict ManagerValue) (runs : String → Trace) where
  unfoldable pub launched_updates : String → Option DaemonService → Option (List ServiceStateUpdate)
  launched_updates k none = none
  launched_updates k (some s) = some (service_updates k (runs k))

  launch-cons :
      (k : String) (s : DaemonService) (services : Dict DaemonService)
      → IsLaunched managers runs k s
      → launch ((k, s) ∷ services) managers runs
        ≡ (k, service_updates k (runs k)) ∷ launch services managers runs
  unfolding launch
  launch-cons k s services v =
      ap (λ n. launch_one n (lookup n managers) (runs n) (launch services managers runs)) v.named
      ∙ gate (lookup k managers) v.managed
    where
      gate :
          (o : Option ManagerValue)
          → is_some o ≡ true
          → launch_one k o (runs k) (launch services managers runs)
            ≡ (k, service_updates k (runs k)) ∷ launch services managers runs
      gate none e = absurd (let x : false ≡ true = e in cc)
      gate (some m) e = refl

  pub lookup-launch :
      (j : String) (services : Dict DaemonService)
      → Entries (IsLaunched managers runs) services
      → lookup j (launch services managers runs) ≡ launched_updates j (lookup j services)
  unfolding launch lookup launched_updates
  lookup-launch j [] h = refl
  lookup-launch j ((k, s) ∷ services) h =
      ap (lookup j) (launch-cons k s services h.0)
      ∙ gate (str_eq k j) refl (lookup-launch j services h.1)
    where
      gate :
          (c : Bool)
          → str_eq k j ≡ c
          → lookup j (launch services managers runs) ≡ launched_updates j (lookup j services)
          → (if c
              then some (service_updates k (runs k))
              else lookup j (launch services managers runs))
            ≡ launched_updates j (if c then some s else lookup j services)
      gate true e ih = ap (λ n. some (service_updates n (runs n))) ((eq_iff k j).0 e)
      gate false e ih = ih

  pub launch-IsMap :
      (services : Dict DaemonService)
      → Entries (IsLaunched managers runs) services
      → IsMap services
      → IsMap (launch services managers runs)
  unfolding launched_updates
  launch-IsMap [] h v = unfold launch in tt
  launch-IsMap ((k, s) ∷ services) h v =
      subst IsMap (sym (launch-cons k s services h.0))
        (lookup-launch k services h.1 ∙ ap (launched_updates k) v.0, launch-IsMap services h.1 v.1)

  pub launch-AreNamed :
      (services : Dict DaemonService)
      → Entries (IsLaunched managers runs) services
      → Entries AreNamed (launch services managers runs)
  launch-AreNamed [] h = unfold launch in tt
  launch-AreNamed ((k, s) ∷ services) h =
      subst (Entries AreNamed) (sym (launch-cons k s services h.0))
        (service_updates-AreNamed k (runs k) h.0.ended, launch-AreNamed services h.1)

  pub launched_over :
      (services : Dict DaemonService)
      → Entries (IsLaunched managers runs) services
      → all_over services runs ≡ true
  unfolding all_over
  launched_over [] h = refl
  launched_over ((k, s) ∷ services) h =
      ap (λ n. is_over (runs n).status && all_over services runs) h.0.named
      ∙ gate (runs k).status h.0.ended (launched_over services h.1)
    where
      gate :
          (st : Status)
          → IsEnded k (runs k) st
          → all_over services runs ≡ true
          → is_over st && all_over services runs ≡ true
      gate returned e rest = rest
      gate (panicked v) e rest = rest
      gate waiting e rest = absurd e
      gate (recovered v) e rest = absurd e
