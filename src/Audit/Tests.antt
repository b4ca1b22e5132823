-- ===== src/Audit/Tests.antt =====
-- The audit monitor on concrete lines.
use owl_sentry.Base.{
  ◌≢◌, ◌≡◌, ℕ, ◌++◌, ◌==◌, if◌then◌else◌, refl, true, false, some, List, [], ◌∷◌, map, arith, All,
  nat_eq, list_eq, pair_eq, insert,
}
use owl_sentry.Text.{codes, is_whitespace, strip_prefix, split_once, break_at, trim_end}
use owl_sentry.Text.Numbers.{int_eq, pos}
use owl_sentry.Alert.Types.{medium}
use owl_sentry.I18n.{fr}
use owl_sentry.Channel.{emit, alert_of, for_each}
use owl_sentry.Samples.{open_env}
use owl_sentry.Audit.KeyValues.{parse_pairs, parse_kv, parse_pairs_ends, unfinished}
use owl_sentry.Audit.RoundTrip.{IsWritable, parse_kv-render, Field}
use owl_sentry.Audit.Events.{record_type, parse_avc, parse_line, AvcDenial}
use owl_sentry.Audit.Monitor.{on_reading, follow, SelinuxRules, Follower, line, at_end}
use owl_sentry.Text.Chunks.{first_line, split_inclusive, ends_line}
use owl_sentry.Audit.Tail.{
  unread, chunks, is_named, can_turn, update, as_reading, take_in, started, open_log, World,
  reading, sleeping, chunk, reads, ends, appends, turns, Reach, here, next,
}
use owl_sentry.Audit.Exact.{behind}
use owl_sentry.Audit.Follows.{open_log-follows}
use owl_sentry.Audit.Progress.{can_catch_up}
use owl_sentry.Audit.Rotation.{sleep_loses}

abbrev exe_field : Field
exe_field = record { key = codes "exe"; value = codes "a b"; is_quoted = true }

abbrev auid_field : Field
auid_field = record { key = codes "auid"; value = codes "7"; is_quoted = false }

abbrev two_fields : List Field
two_fields = exe_field ∷ auid_field ∷ []

two_fields-IsWritable : All IsWritable two_fields
unfolding is_whitespace strip_prefix
two_fields-IsWritable = (
  ((refl, (refl, (refl, tt))), (refl, (refl, (refl, tt))), (refl, (refl, (refl, tt)))),
  (
    ((refl, (refl, (refl, (refl, tt)))), (refl, (refl, (refl, (refl, tt)))), ((refl, tt), refl)),
    tt,
  ),
)

parse_kv-render_example :
    parse_kv (codes " exe=\"a b\" auid=7")
    ≡ some ((codes "exe", codes "a b") ∷ (codes "auid", codes "7") ∷ [])
unfolding insert
parse_kv-render_example = parse_kv-render two_fields two_fields-IsWritable

parse_pairs_ends_example :
    (parse_pairs 4 (codes "a=b") [] ≢ unfinished)
    × (parse_pairs 4 (codes "a=b") [] ≡ parse_pairs 9 (codes "a=b") [])
parse_pairs_ends_example = parse_pairs_ends 4 9 (codes "a=b") [] (omega arith) (omega arith)

abbrev sample_rules : SelinuxRules
sample_rules = record {
  critical_types = codes "shadow_t" ∷ [];
  watched_commands = codes "setenforce" ∷ [];
}

abbrev sample_denial : AvcDenial
sample_denial = record {
  perms = codes "read";
  pid = some (pos 7);
  comm = codes "httpd";
  target = codes "shadow";
  tclass = codes "file";
  scontext = codes "httpd_t";
  tcontext = codes "u:shadow_t:s0";
  permissive = true;
}

abbrev at_start : Follower
at_start = record {
  ino = 1;
  reopened = 0;
  is_running = true;
  out = record { sent = []; is_open = true };
}

one_alert :
    let f =
      follow open_env sample_rules fr
        (line (codes "type=MAC_POLICY_LOAD x\n") ∷ at_end 2 0 5 true ∷ [])
        at_start in
    (map (λ a. a.severity) f.out.sent ≡ medium ∷ []) × (f.ino ≡ 2) × (f.reopened ≡ 1)
unfolding follow for_each emit alert_of parse_line record_type parse_avc split_once trim_end
    is_whitespace strip_prefix break_at
one_alert = (refl, refl, refl)

-- A log at inode 1 that holds a line when it is opened.
abbrev old_log : ℕ → List ℕ
old_log k = if k == 1 then codes "old\n" else []

abbrev tail_start : World
tail_start = started old_log 1 at_start.out

-- A line is written and the log turned over, both while the loop reads; a line is written to the new
-- file, the first line is read, and the loop sleeps.
abbrev tail_asleep : World
tail_asleep = record tail_start {
  contents = update 2 (codes "b\n") (update 2 [] (update 1 (codes "old\na\n") old_log));
  named = some 2;
  position = 6;
  phase = sleeping;
  follower = on_reading open_env sample_rules fr (line (codes "a\n")) at_start;
  acts = chunk (codes "a\n") ∷ [];
  written = codes "a\nb\n";
}

still_running :
    (on_reading open_env sample_rules fr (line (codes "a\n")) at_start).is_running ≡ true
unfolding on_reading parse_line record_type parse_avc split_once trim_end is_whitespace strip_prefix
    break_at
still_running = refl

tail_asleep-Reach : Reach some open_env sample_rules fr tail_start tail_asleep
unfolding take_in as_reading first_line is_named can_turn ends_line
tail_asleep-Reach =
    next
      (next
        (next (next (next here (appends 1 (codes "a\n"))) (turns 2 (λ e. omega arith)))
          (appends 2 (codes "b\n")))
        (reads refl refl (λ e. cc)))
      (ends still_running refl refl)

open_log-follows_example :
    (n : ℕ) × (some 2 ≡ some n)
    × (codes "a\n" ∷ ([] ++ split_inclusive (behind n tail_asleep))
        ≡ codes "a\n" ∷ codes "b\n" ∷ [])
    × (on_reading open_env sample_rules fr (line (codes "a\n")) at_start
        ≡ follow open_env sample_rules fr (line (codes "a\n") ∷ []) at_start)
unfolding split_inclusive chunks as_reading open_log
open_log-follows_example =
    open_log-follows some open_env sample_rules fr old_log (some 1) true true at_start.out
      tail_start tail_asleep refl tail_asleep-Reach refl refl

abbrev tail_quiet : World
tail_quiet = record tail_start { phase = sleeping }

sleep_loses_example :
    (u : World) × Reach some open_env sample_rules fr tail_quiet u
    × (u.contents 1 ≡ codes "old\nlost\n")
    × (u.written ≡ codes "lost\n")
    × (chunks u.acts ≡ [])
    × (u.opened ≡ 2)
    × (u.position ≡ 0)
    × (u.phase ≡ reading)
    × (unread u ≡ [])
unfolding chunks
sleep_loses_example =
    sleep_loses some open_env sample_rules fr tail_quiet (codes "lost\n") 2 refl refl refl refl
      (λ e. omega arith)

abbrev tail_written : World
tail_written = record tail_start { contents = update 1 (codes "old\na\nb\n") old_log }

can_catch_up_example :
    (u : World) × Reach some open_env sample_rules fr tail_written u
    × (unread u ≡ [])
    × (chunks u.acts ≡ codes "a\n" ∷ codes "b\n" ∷ [])
    × (u.follower.is_running ≡ true)
    × (u.contents ≡ tail_written.contents)
unfolding on_reading parse_line record_type parse_avc split_once trim_end is_whitespace strip_prefix
    break_at split_inclusive chunks as_reading
can_catch_up_example =
    can_catch_up some open_env sample_rules fr (codes "a\n" ∷ codes "b\n" ∷ []) tail_written refl
      (λ f r. r, (λ f r. r, tt)) refl refl
