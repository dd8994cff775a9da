-- ===== src/Daemon/Services.antt =====
-- daemon.go: the services and managers that a daemon is given before it starts.
pub mod Adding
use Prim.Native.String
use rxd.Base.{
  ℕ, ◌≡◌, Bool, true, false, ◌&&◌, String, List, [], ◌∷◌, Dict, lookup, insert, Option, none, some,
  if◌then◌else◌, str_eq,
}
use rxd.Errors.{GoError, plain, no_service_name, adding_service_once_started}

-- How the type behind an interface value defines the method: on a struct, on another kind of value,
-- or on a pointer only.
pub data Receiver : Type 0 where
  struct_value other_value by_pointer : Receiver

-- A ServiceManager or ServiceRunner that is not a nil interface: the value it holds, by its
-- identity, whether that is a nil pointer, its type's name, and the receiver of Manage.
pub record ManagerValue : Type 0 where
  pub identity : ℕ
  pub is_nil_pointer : Bool
  pub type_name : String
  pub receiver : Receiver

pub record Service : Type 0 where
  pub name : String
  pub runner : ℕ
  pub manager : Option ManagerValue

pub record DaemonService : Type 0 where
  pub name : String
  pub runner : ℕ

-- The part of daemon that these methods change. `default` is what NewDefaultManager returns.
pub record Registered : Type 0 where
  pub started : Bool
  pub services : Dict DaemonService
  pub managers : Dict ManagerValue
  pub default : ManagerValue

pub data Checked : Type 0 where
  passes : Checked
  uninitialized : String → String → Checked
  panics : Checked

-- MethodByName finds nothing in the element type when the method needs a pointer, and the Type of
-- the zero Method is nil, so that NumIn panics.
unfoldable pub check_nil_struct_pointer : ManagerValue → String → Checked
check_nil_struct_pointer m method =
    if m.is_nil_pointer
    then elim (m.receiver) [
      | struct_value ↦ uninitialized m.type_name method
      | other_value ↦ passes
      | by_pointer ↦ panics
    ]
    else passes

abbrev pub uninitialized_text : String → String → String
uninitialized_text name method =
    String.◌++◌ name
      (String.◌++◌ " is nil, but uses a value receiver for '" (String.◌++◌ method "' method."))

pub data Added : Type 0 where
  adds : Added
  fails : GoError → Added
  add_panics : Added

abbrev pub chosen_manager : ManagerValue → Option ManagerValue → ManagerValue
chosen_manager d none = d
chosen_manager d (some m) = m

abbrev after_check : Registered → Service → ManagerValue → Checked → Registered × Added
after_check d service m passes = (
  record d {
    services =
        insert service.name (record { name = service.name; runner = service.runner }) d.services;
    managers = insert service.name m d.managers;
  },
  adds,
)
after_check d service m (uninitialized name method) =
    (d, fails (plain (uninitialized_text name method)))
after_check d service m panics = (d, add_panics)

unfoldable pub add_service : Registered → Service → Registered × Added
unfolding check_nil_struct_pointer
add_service d service =
    let m = chosen_manager d.default service.manager in
    let checked = after_check d service m (check_nil_struct_pointer m "Manage") in
    if d.started
    then (d, fails adding_service_once_started)
    else if str_eq service.name ""
    then (d, fails no_service_name)
    else checked

-- The first error ends the loop. `rest` is what follows if it goes on.
abbrev if_added : Registered × Added → Registered × Added → Registered × Added
if_added (d, adds) rest = rest
if_added (d, fails e) rest = (d, fails e)
if_added (d, add_panics) rest = (d, add_panics)

unfoldable pub add_services : Registered → List Service → Registered × Added
unfolding add_service
add_services d [] = (d, adds)
add_services d (service ∷ services) =
    let r = add_service d service in if_added r (add_services r.0 services)
