-- ===== src/Process/Monitor.antt =====
-- crates/owlsentry-daemon/src/monitors/process.rs: `run`, one turn of its loop at a time. What a
-- turn reads of /proc is its sample; the sets are iterated in the order of their lists, and all
-- processes are read before the parents are looked for.
use owl_sentry.Base.{
  ℕ, Bool, true, not, ◌&&◌, ◌||◌, Option, none, some, List, [], ◌∷◌, leb, if◌then◌else◌, ◌>>=◌,
  filter, nat_eq, list_eq, pair_eq, contains, insert_set,
}
use owl_sentry.Text.{Text, codes, ends_with}
use owl_sentry.Text.Numbers.{int_eq, show_int, ℤ, pos, negsuc}
use owl_sentry.Alert.Types.{with_meta, DateTime, Alert, high, critical, process}
use owl_sentry.I18n.{Lang}
use owl_sentry.Messages.Processes.{ld_preload, deleted_exe, tmp_exec, hidden_process}
use owl_sentry.Channel.{emit, alert_of, for_each, Env, Outbox}
use owl_sentry.Process.Reading.{ld_preload_of, ppid_of, read_comm, is_tmp_exec}

-- What a turn finds: the processes listed, the files of each, whether the directory of a process
-- exists and which processes are listed when a parent is looked for, and whether it exists at
-- the end.
pub record Sample : Type 0 where
  pub pids : List ℤ
  pub status : ℤ → Option Text
  pub environ : ℤ → Option (List ℕ)
  pub exe : ℤ → Option Text
  pub comm : ℤ → Option Text
  pub exists_now : ℤ → Bool
  pub pids_again : ℤ → List ℤ
  pub exists_later : ℤ → Bool

-- The variables of the loop.
pub record Monitor : Type 0 where
  pub reported_preload : List ℤ
  pub reported_deleted : List ℤ
  pub reported_tmp : List ℤ
  pub reported_hidden : List ℤ
  pub out : Outbox

unfoldable pub new_monitor : Monitor
new_monitor = record {
  reported_preload = [];
  reported_deleted = [];
  reported_tmp = [];
  reported_hidden = [];
  out = record { sent = []; is_open = true };
}

-- The parents of the processes, as a set
unfoldable pub ppids : Sample → List ℤ → List ℤ
ppids sample [] = []
ppids sample (pid ∷ pids) = elim (ppid_of (sample.status pid)) [
  | none ↦ ppids sample pids
  | some ppid ↦ insert_set ppid (ppids sample pids)
]

-- `ppid <= 2`
unfoldable pub is_early : ℤ → Bool
is_early (pos n) = leb n 2
is_early (negsuc n) = true

-- The processes that are gone are forgotten.
unfoldable pub clean_up : Sample → Monitor → Monitor
clean_up sample m = record m {
  reported_preload = filter (λ p. contains p sample.pids) m.reported_preload;
  reported_deleted = filter (λ p. contains p sample.pids) m.reported_deleted;
  reported_tmp = filter (λ p. contains p sample.pids) m.reported_tmp;
  reported_hidden = filter sample.exists_later m.reported_hidden;
}

module _ (env : Env) (from_utf8_lossy : List ℕ → Text) (lang : Lang) where
  unfoldable pub preload_alert : ℤ → Text → Text → DateTime → Alert
  preload_alert pid comm value now = with_meta (codes "ld_preload") value (
      with_meta (codes "comm") comm (
        with_meta (codes "pid") (show_int pid)
          (alert_of high process (ld_preload lang pid comm value) now)))

  unfoldable pub check_preload : Sample → ℤ → Monitor → Monitor
  unfolding preload_alert
  check_preload sample pid m =
      if contains pid m.reported_preload
      then m
      else elim (sample.environ pid >>= ld_preload_of from_utf8_lossy) [
        | none ↦ m
        | some value ↦ record m {
          reported_preload = insert_set pid m.reported_preload;
          out = emit env (preload_alert pid (read_comm (sample.comm pid)) value) m.out;
        }
      ]

  unfoldable pub deleted_alert : ℤ → Text → Text → DateTime → Alert
  deleted_alert pid comm exe now = with_meta (codes "exe") exe (
      with_meta (codes "comm") comm (
        with_meta (codes "pid") (show_int pid)
          (alert_of high process (deleted_exe lang pid comm) now)))

  unfoldable pub tmp_alert : ℤ → Text → Text → DateTime → Alert
  tmp_alert pid comm exe now = with_meta (codes "exe") exe (
      with_meta (codes "comm") comm (
        with_meta (codes "pid") (show_int pid)
          (alert_of high process (tmp_exec lang pid comm exe) now)))

  -- An executable that has been deleted, or else one in a temporary directory.
  unfoldable pub check_exe : Sample → ℤ → Monitor → Monitor
  unfolding deleted_alert tmp_alert
  check_exe sample pid m = elim (sample.exe pid) [
    | none ↦ m
    | some exe ↦
        if ends_with (codes " (deleted)") exe && not (contains pid m.reported_deleted)
        then record m {
          reported_deleted = insert_set pid m.reported_deleted;
          out = emit env (deleted_alert pid (read_comm (sample.comm pid)) exe) m.out;
        }
        else if is_tmp_exec exe && not (contains pid m.reported_tmp)
        then record m {
          reported_tmp = insert_set pid m.reported_tmp;
          out = emit env (tmp_alert pid (read_comm (sample.comm pid)) exe) m.out;
        }
        else m
  ]

  unfoldable pub check_pid : Sample → ℤ → Monitor → Monitor
  unfolding check_preload check_exe
  check_pid sample pid m =
      let told = check_preload sample pid m in
      if told.out.is_open then check_exe sample pid told else told

  -- A parent that exists but is not listed, neither before nor now.
  unfoldable pub check_parent : Sample → ℤ → Monitor → Monitor
  check_parent sample ppid m =
      if is_early ppid || contains ppid sample.pids || contains ppid m.reported_hidden
      then m
      else if sample.exists_now ppid && not (contains ppid (sample.pids_again ppid))
      then record m {
        reported_hidden = insert_set ppid m.reported_hidden;
        out =
            emit env
              (λ now.
                with_meta (codes "pid") (show_int ppid)
                  (alert_of critical process (hidden_process lang ppid) now))
              m.out;
      }
      else m

  unfoldable pub scan : Sample → Monitor → Monitor
  unfolding check_pid check_parent ppids clean_up
  scan sample m =
      let walked = for_each (λ s. s.out) (check_pid sample) sample.pids m in
      let searched =
        if walked.out.is_open
        then for_each (λ s. s.out) (check_parent sample) (ppids sample sample.pids) walked
        else walked in
      if searched.out.is_open then clean_up sample searched else searched

  -- The loop, over the samples that its turns read.
  unfoldable pub run : List Sample → Monitor → Monitor
  unfolding scan
  run samples m = for_each (λ s. s.out) scan samples m
