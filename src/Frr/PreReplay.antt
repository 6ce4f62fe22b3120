-- ===== src/Frr/PreReplay.antt =====
-- handlePreReplay of pkg/frr/frr.go: before a replay FRR starts anew from its basic configuration.
use text.Mathlib.TextEquality.{eq_iff}
use opi_evpn_bridge.Prelude.{
  String, ◌≡◌, ◌⊎◌, inl, inr, Bool, false, Option, none, some, ◌==◌, string_eq, arith,
  if◌then◌else◌, Option-cases,
}

pub record ModuleFrrActionHandler : Type 0 where
  pub running_frr_conf_file : String
  pub basic_frr_conf_file : String
  pub backup_frr_conf_file : String

abbrev pub new_module_frr_action_handler : ModuleFrrActionHandler
new_module_frr_action_handler = record {
  running_frr_conf_file = "/etc/frr/frr.conf";
  basic_frr_conf_file = "/etc/frr/frr-basic.conf";
  backup_frr_conf_file = "/etc/frr/frr.conf.bak";
}

-- The contents of the files that there are.
abbrev pub Files : Type 0
Files = String → Option String

abbrev pub stored_at : String → Option String → Files → Files
stored_at name content files n = if n == name then content else files n

-- What the system answers to each step: an error, or none. A write that fails leaves some content,
-- or no file. `owner_error` is that of the look-up of the user and of the conversions of its numbers.
pub record Answers : Type 0 where
  pub rename_error : Option String
  pub read_error : Option String
  pub write_error : Option (String × Option String)
  pub owner_error : Option String
  pub chown_error : Option String
  pub restarts : Bool

-- The end: the owner of the new file, and the restart of the daemons.
abbrev restart : Answers → Option String
restart a = elim a.owner_error [
  | some e ↦ some e
  | none ↦ elim a.chown_error [
    | some e ↦ some e
    | none ↦ if a.restarts then none else some "restart FRR daemon failed"
  ]
]

module _ (h : ModuleFrrActionHandler) (a : Answers) where
  write_config : String → Files → Option String × Files
  write_config input files = elim a.write_error [
    | some (e, left) ↦ (some e, stored_at h.running_frr_conf_file left files)
    | none ↦ (restart a, stored_at h.running_frr_conf_file (some input) files)
  ]

  -- A file that is missing is not read.
  read_config : Files → Option String × Files
  unfolding write_config
  read_config files = elim a.read_error [
    | some e ↦ (some e, files)
    | none ↦ elim (files h.basic_frr_conf_file) [
      | none ↦ (some "no such file or directory", files)
      | some input ↦ write_config input files
    ]
  ]

  -- What is sent on ErrCh, and the files afterwards.
  unfoldable pub handle_pre_replay : Files → Option String × Files
  unfolding read_config
  handle_pre_replay files = elim a.rename_error [
    | some e ↦ (some e, files)
    | none ↦ elim (files h.running_frr_conf_file) [
      | none ↦ (some "no such file or directory", files)
      | some conf ↦ read_config (
          stored_at h.running_frr_conf_file none
            (stored_at h.backup_frr_conf_file (some conf) files))
    ]
  ]

  module _ (differ : (h.backup_frr_conf_file == h.running_frr_conf_file) ≡ false) where
    read_config-backup :
        (files : Files)
        → (read_config files).1 h.backup_frr_conf_file ≡ files h.backup_frr_conf_file
    unfolding read_config write_config
    read_config-backup files = ground arith

    -- Whichever step fails, the configuration that was in use is in its own file or in the backup.
    -- The two files have different names.
    pub handle_pre_replay-backup :
        (files : Files) (conf : String)
        → files h.running_frr_conf_file ≡ some conf
        → ((handle_pre_replay files).1 h.running_frr_conf_file ≡ some conf)
          ⊎ ((handle_pre_replay files).1 h.backup_frr_conf_file ≡ some conf)
    unfolding handle_pre_replay
    handle_pre_replay-backup files conf used =
        let moved =
          stored_at h.running_frr_conf_file none
            (stored_at h.backup_frr_conf_file (some conf) files) in
        let kept = read_config-backup moved in
        elim (Option-cases a.rename_error) [
          | inr (e, r) ↦ inl (ground arith)
          | inl r ↦ inr (ground (arith, kept, eq_iff h.backup_frr_conf_file h.backup_frr_conf_file))
        ]

    -- Where a pre-replay sends no error, FRR runs on its basic configuration, and the one that was in
    -- use is in the backup. The three files have different names.
    pub handle_pre_replay-restored :
        (files : Files)
        → (h.basic_frr_conf_file == h.running_frr_conf_file) ≡ false
        → (h.basic_frr_conf_file == h.backup_frr_conf_file) ≡ false
        → (handle_pre_replay files).0 ≡ none
        → ((handle_pre_replay files).1 h.running_frr_conf_file ≡ files h.basic_frr_conf_file)
          × ((handle_pre_replay files).1 h.backup_frr_conf_file ≡ files h.running_frr_conf_file)
    unfolding handle_pre_replay read_config write_config
    handle_pre_replay-restored files apart apart' done = (
      ground (arith, eq_iff h.running_frr_conf_file h.running_frr_conf_file),
      ground (arith, eq_iff h.backup_frr_conf_file h.backup_frr_conf_file),
    )
