-- ===== src/ApplyConfirm/Requests.antt =====
-- `_apply_locked` and `_handle_set_management_addresses` of src/frfw/helper/server.py. What is
-- drawn or read from outside during a request is its `Circumstances`.
use fr_os_pblk.Base.{
  ℕ, String, Bool, true, false, not, ◌&&◌, Option, none, some, List, [], ◌==◌, string_eq,
  if◌then◌else◌,
}
use fr_os_pblk.Transaction.{ApplyError}
use fr_os_pblk.Provision.Machinery.{Ending, applied, failed}
use fr_os_pblk.Provision.Apply.{Router, apply_all, load_applied_config}
use fr_os_pblk.ApplyConfirm.Store.{
  Pending, remaining, Store, Calls, Done, done, pending_error, invalid_config, needs_confirmation,
  begin,
}

-- The token, the clock, the failure of the waiting unit to start, and the user.
pub record Circumstances : Type 0 where
  pub id : String
  pub now : ℕ
  pub start : Option String
  pub user : String

-- The reply of an apply, or the exception that it raises.
pub data Reply : Type 0 where
  still_waiting : ℕ → Reply
  unapplied_changes : Reply
  raised : ApplyError → Reply
  unreadable : Reply
  unheld : List String → Reply
  not_holdable : List String → String → Reply
  held : List String → Pending → Reply

abbrev pub is_ok : Reply → Bool
is_ok (unheld messages) = true
is_ok (not_holdable messages problem) = true
is_ok (held messages p) = true
is_ok reply = false

abbrev pub moved_error : String → ApplyError
moved_error text = record {
  step = "the webUI address";
  cause = text;
  changed = false;
  rolled_back = [];
  not_rolled_back = [];
}

-- Whether config.yaml holds changes that are not applied yet.
unfoldable pub has_unapplied : Option String → String → Bool
has_unapplied none text = false
has_unapplied (some recorded) text = not (recorded == text)

-- The `except` and the check of "ok" at the end of the handler.
unfoldable pub restoring_text : {W : Type 0} → String → Store W × Reply → Store W × Reply
restoring_text text (s, reply) =
    if is_ok reply then (s, reply) else (record s { config = some text }, reply)

module _ {W Config : Type 0} (calls : Calls W Config) (c : Circumstances) where
  abbrev pub begun : List String → Store W × Done Pending → Store W × Reply
  begun messages (s, done p) = (s, held messages p)
  begun messages (s, pending_error problem) = (s, not_holdable messages problem)
  begun messages (s, invalid_config) = (s, unheld messages)

  -- After an apply that succeeded, with the text of the config applied before it.
  unfoldable pub hold :
      Config → String → Bool → Option String → List String → Store W → Store W × Reply
  hold config text confirm none messages s = (s, unheld messages)
  hold config text confirm (some previous) messages s =
      let seconds = calls.confirm_apply_seconds config in
      if confirm && needs_confirmation seconds text (some previous)
      then begun messages
          (begin previous seconds c.user (calls.reachable config) c.id c.now c.start s)
      else (s, unheld messages)

  unfoldable pub applied_or_raised :
      Config → String → Bool → Store W → Router W × Ending → Store W × Reply
  applied_or_raised config text confirm s (router, failed e) =
      (record s { router = router }, raised e)
  applied_or_raised config text confirm s (router, applied messages) =
      hold config text confirm s.router.recorded messages (record s { router = router })

  unfoldable pub unless_moved : Config → String → Bool → Option String → Store W → Store W × Reply
  unless_moved config text confirm (some moved) s = (s, raised (moved_error moved))
  unless_moved config text confirm none s =
      applied_or_raised config text confirm s
        (apply_all calls.parse calls.subsystems calls.checks config (some text) true s.router)

  unfoldable pub apply_waiting : Config → String → Bool → Option Pending → Store W → Store W × Reply
  apply_waiting config text confirm (some p) s = (s, still_waiting (remaining p c.now))
  apply_waiting config text confirm none s =
      unless_moved config text confirm
        (calls.moves_management config (load_applied_config calls.parse s.router.recorded)) s

  -- `_apply_locked`
  unfoldable pub apply_locked : Config → String → Bool → Store W → Store W × Reply
  apply_locked config text confirm s = apply_waiting config text confirm s.pending s

  unfoldable pub move_parsed : String → String → Option Config → Store W → Store W × Reply
  move_parsed text new_text none s = (s, unreadable)
  move_parsed text new_text (some config) s =
      restoring_text text (apply_locked config new_text true (record s { config = some new_text }))

  unfoldable pub move_waiting : List String → String → Option Pending → Store W → Store W × Reply
  move_waiting addresses text (some p) s = (s, still_waiting (remaining p c.now))
  move_waiting addresses text none s =
      if has_unapplied s.router.recorded text
      then (s, unapplied_changes)
      else let new_text = calls.with_addresses text addresses in
        move_parsed text new_text (calls.parse new_text) s

  unfoldable pub move_text : List String → Option String → Store W → Store W × Reply
  move_text addresses none s = (s, unreadable)
  move_text addresses (some text) s = move_waiting addresses text s.pending s

  -- `_handle_set_management_addresses`, for a list of addresses that is not empty.
  unfoldable pub set_management_addresses : List String → Store W → Store W × Reply
  set_management_addresses addresses s = move_text addresses s.config s
