-- ===== src/Audit/Tail.antt =====
-- crates/owlsentry-daemon/src/monitors/audit.rs: `run` beside the file system. The log is appended to,
-- turned over and truncated between any two steps of the monitor, also between the end of the file and
-- the look at its path, and between that look and the opening.
use owl_sentry.Base.{
  ℕ, ◌+◌, ◌≡◌, ◌≢◌, Bool, true, false, ◌&&◌, Option, none, some, List, [], ◌∷◌, ◌++◌, if◌then◌else◌,
  not, ◌||◌, ltb, nat_eq, ◌==◌, list_eq, pair_eq, length, drop,
}
use owl_sentry.Text.{Text}
use owl_sentry.I18n.{Lang}
use owl_sentry.Channel.{Env, Outbox}
use owl_sentry.Audit.Monitor.{
  on_reading, SelinuxRules, Follower, Reading, line, at_end, at_end_without, read_error,
}
use owl_sentry.Text.Chunks.{first_line, ends_line}

-- Where the loop is: about to read a line; asleep behind the end of the file; about to open the path
-- again, of which it has seen this inode and this length.
pub data Phase : Type 0 where
  reading : Phase
  sleeping : Phase
  opening : (ino len : ℕ) → Phase

-- What a turn of the loop has met: the bytes of a line, or something else.
pub data Act : Type 0 where
  chunk : List ℕ → Act
  met : Reading → Act

-- The bytes of each inode, the inode at the path, and the monitor: the inode that its reader has open,
-- the position in it, and what the loop has met so far. No step reads the last three fields: all
-- that was appended to the log since the start; `exact`, that the log was changed only in the
-- ways that the loop can see; `whole`, that only ended lines were appended.
pub record World : Type 0 where
  pub contents : ℕ → List ℕ
  pub named : Option ℕ
  pub opened : ℕ
  pub position : ℕ
  pub phase : Phase
  pub follower : Follower
  pub acts : List Act
  pub written : List ℕ
  pub exact : Bool
  pub whole : Bool

abbrev pub unread : World → List ℕ
unread w = drop w.position (w.contents w.opened)

-- The lines that were read, in the order of the reading.
unfoldable pub chunks : List Act → List (List ℕ)
chunks [] = []
chunks (chunk bytes ∷ acts) = bytes ∷ chunks acts
chunks (met r ∷ acts) = chunks acts

unfoldable pub is_named : ℕ → Option ℕ → Bool
is_named i none = false
is_named i (some n) = n == i

-- The log may be turned over when the reader is not yet at its end, or has nothing left of it: behind
-- the end of the file, it reads the old one no more.
unfoldable pub can_turn : Phase → List ℕ → Bool
can_turn reading rest = true
can_turn sleeping [] = true
can_turn sleeping (c ∷ cs) = false
can_turn (opening ino len) rest = false

abbrev pub update : ℕ → List ℕ → (ℕ → List ℕ) → ℕ → List ℕ
update i bytes contents k = if k == i then bytes else contents k

-- Whether the path is to be opened again. The position of an open file can always be told.
unfoldable pub has_turned : (ino len : ℕ) → World → Bool
has_turned ino len w = not (ino == w.follower.ino) || ltb len w.position

abbrev pub next_phase : Bool → (ino len : ℕ) → Phase
next_phase true ino len = opening ino len
next_phase false ino len = reading

-- `read_line` fails on bytes that are no text.
unfoldable pub as_reading : (List ℕ → Option Text) → Act → Reading
as_reading utf8 (chunk bytes) = elim (utf8 bytes) [ none ↦ read_error | some text ↦ line text ]
as_reading utf8 (met r) = r

module _ (utf8 : List ℕ → Option Text) (env : Env) (rules : SelinuxRules) (lang : Lang) where
  -- What the loop does with what it has met.
  unfoldable pub take_in : Act → World → World
  unfolding as_reading
  take_in act w = record w {
    follower = on_reading env rules lang (as_reading utf8 act) w.follower;
    acts = w.acts ++ (act ∷ []);
  }

  pub data Step (w : World) : World → Type 0 where
    -- `read_line` finds some bytes.
    reads :
        w.follower.is_running ≡ true
        → w.phase ≡ reading
        → unread w ≢ []
        → Step w (
            take_in
              (chunk (first_line (unread w)))
              (record w { position = w.position + length (first_line (unread w)) }))
    -- `read_line` finds none; the sleep begins.
    ends :
        w.follower.is_running ≡ true
        → w.phase ≡ reading
        → unread w ≡ []
        → Step w (record w { phase = sleeping })
    breaks :
        w.follower.is_running ≡ true
        → w.phase ≡ reading
        → Step w (take_in (met read_error) (record w { phase = reading }))
    -- `metadata(&path)` behind the sleep, and the test for a rotation
    looks :
        (ino : ℕ)
        → w.follower.is_running ≡ true
        → w.phase ≡ sleeping
        → w.named ≡ some ino
        → Step w (record w {
          phase =
              next_phase (has_turned ino (length (w.contents ino)) w) ino (length (w.contents ino));
        })
    looks_in_vain :
        w.follower.is_running ≡ true
        → w.phase ≡ sleeping
        → Step w (take_in (met at_end_without) (record w { phase = reading }))
    -- `File::open(&path)`, of whatever the path names by then
    opens :
        (ino len n : ℕ)
        → w.follower.is_running ≡ true
        → w.phase ≡ opening ino len
        → w.named ≡ some n
        → Step w (record (take_in (met (at_end ino len w.position true)) w) {
          opened = n;
          position = 0;
          phase = reading;
        })
    opens_in_vain :
        (ino len : ℕ)
        → w.follower.is_running ≡ true
        → w.phase ≡ opening ino len
        → Step w (take_in (met (at_end ino len w.position false)) (record w { phase = reading }))
    -- Others write to the log, or to a file that has been it;
    appends :
        (i : ℕ) (bytes : List ℕ)
        → Step w (record w {
          contents = update i (w.contents i ++ bytes) w.contents;
          written = w.written ++ bytes;
          exact = w.exact && is_named i w.named;
          whole = w.whole && ends_line true bytes;
        })
    -- put a new empty file in its place, while the reader keeps the old one open;
    turns :
        (j : ℕ)
        → j ≢ w.opened
        → Step w (record w {
          contents = update j [] w.contents;
          named = some j;
          exact = w.exact && (is_named w.opened w.named && can_turn w.phase (unread w));
        })
    -- remove it, or empty it.
    removes : Step w (record w { named = none; exact = false })
    truncates : (i : ℕ) → Step w (record w { contents = update i [] w.contents; exact = false })

  pub data Reach (w : World) : World → Type 0 where
    here : Reach w w
    next : {u v : World} → Reach w u → Step u v → Reach w v

-- The monitor before its first turn: at the end of the log.
abbrev pub started : (ℕ → List ℕ) → ℕ → Outbox → World
started contents i out = record {
  contents = contents;
  named = some i;
  opened = i;
  position = length (contents i);
  phase = reading;
  follower = record { ino = i; reopened = 0; is_running = true; out = out };
  acts = [];
  written = [];
  exact = true;
  whole = true;
}

-- The opening of what the path names, the inode and the seek to the end; each may fail, which ends `run`.
unfoldable pub open_log : (ℕ → List ℕ) → Option ℕ → (stats seeks : Bool) → Outbox → Option World
open_log contents none stats seeks out = none
open_log contents (some i) stats seeks out =
    if stats && seeks then some (started contents i out) else none
