-- ===== src/Frr/Session.antt =====
-- How the functions of pkg/frr/frr.go act on the FRR daemons: by commands, whose answers decide how
-- they go on, and by saving the configuration. Such a function is a `Session`.
use opi_evpn_bridge.Prelude.{
  String, Bool, true, false, ◌&&◌, ◌||◌, List, [], ◌∷◌, Option, none, some, ◌==◌, string_eq,
  if◌then◌else◌,
}
use opi_evpn_bridge.Prelude.Text.{contains}
use opi_evpn_bridge.Linux.Plan.{Ending, returned, panicked}

pub data Daemon : Type 0 where
  zebra bgpd : Daemon

-- What a command gives: the output, or the text of an error.
pub data Reply : Type 0 where
  output : String → Reply
  failed : String → Reply

-- The daemons, which are other programs. `communicate` is TelnetDialAndCommunicate; an error of
-- `save` is only logged. `to_lower` is strings.ToLower.
pub record Frr : Type 1 where
  pub State : Type 0
  pub communicate : State → Daemon → String → Reply × State
  pub save : State → State
  pub to_lower : String → String

abbrev contains_any : String → List String → Bool
contains_any s [] = false
contains_any s (p ∷ ps) = contains s p || contains_any s ps

-- checkFrrResult: whether an output tells of an error.
unfoldable pub check_frr_result : (String → String) → String → (show : Bool) → Bool
check_frr_result to_lower text show =
    if show && text == ""
    then true
    else if contains text "Can't find BGP instance" || contains text "Create the peer-group first"
    then false
    else contains_any (to_lower text)
        ("error" ∷ "warning" ∷ "unknown" ∷ "ambiguous" ∷ "specified does not exist" ∷ [])

-- FrrZebraCmd and FrrBgpCmd, after the exchange.
unfoldable pub checked : (String → String) → (show : Bool) → Reply → Reply
checked to_lower show (failed e) = failed e
checked to_lower show (output s) = if check_frr_result to_lower s show then failed s else output s

-- The output that the wrappers return next to an error is empty.
abbrev pub text_of : Reply → String
text_of (output s) = s
text_of (failed e) = ""

pub data Session : Type 0 where
  -- A nil pointer is read, or an index is out of range.
  panic : Session
  finish : (details : String) → (status : Bool) → Session
  command : Daemon → String → (show : Bool) → (Reply → Session) → Session
  save : Session → Session

-- A command whose error ends the function, with a text; after it, the configuration is saved.
abbrev pub must : Daemon → String → (show : Bool) → (String → Session) → Session → Session
must d text show on_error next =
    command d text show λ r. elim r [ failed e ↦ on_error e | output s ↦ save next ]

abbrev pub deref {ℓ} : {A : Type ℓ} → Option A → (A → Session) → Session
deref none p = panic
deref (some a) p = p a

module _ (F : Frr) where
  unfoldable pub run_session : Session → F.State → Ending × F.State
  run_session panic s = (panicked, s)
  run_session (finish details status) s = (returned details status, s)
  run_session (command d text show next) s =
      run_session (next (checked F.to_lower show (F.communicate s d text).0))
        (F.communicate s d text).1
  run_session (save p) s = run_session p (F.save s)
