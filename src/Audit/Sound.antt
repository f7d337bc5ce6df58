-- ===== src/Audit/Sound.antt =====
-- What is sound about the audit files: each verifies, as far as no line reaches the length of the
-- tail that is read again when a file is opened.
pub mod Lines
pub mod Writing
pub mod Tail
pub mod Opening
pub mod Sparing
pub mod Pruning
pub mod Steps
pub mod Methods
pub mod Steady
pub mod Runs
pub mod Codec
pub mod Tests
use Prim.Native.String.{len}
use ownpg.Base.{
  ℕ, ◌<◌, ◌≤◌, String, ◌≡◌, ◌⊎◌, true, Option, some, List, [], ◌∷◌, any, leb, last?, All,
}
use ownpg.Json.{Value, get}
use ownpg.Classify.Statement.{Reply, given}
use ownpg.Audit.Entry.{Entry, Marker, line_value, marker_value}
use ownpg.Audit.Chain.{sound, verify_chain}
use ownpg.Audit.Disk.{Disk, File, Fault, leaves}
use ownpg.Audit.Log.{OpenLog, tail_scan_bytes}
use ownpg.Audit.Sink.{Sink}

abbrev pub IsLong : String → Type 0
IsLong line = leb tail_scan_bytes (len line) ≡ true

abbrev pub HasLong : File → Type 0
HasLong f = (any (λ line. leb tail_scan_bytes (len line)) f.lines ≡ true) × (f.torn ≡ "")

abbrev pub IsIdle : File → Type 0
IsIdle f = (f.lines ≡ []) × (f.torn ≡ "")

abbrev pub IsQuietFault : Fault → Type 0
IsQuietFault (leaves part) = ⊥
IsQuietFault _ = Unit

-- A failed write can be cut back.
abbrev pub IsQuiet : List Fault → Type 0
IsQuiet = All IsQuietFault

-- A line that the log writes: that of an entry, or a marker.
abbrev pub IsLine : Value → Type 0
IsLine v =
    ((timestamp : String) × (entry : Entry) × (prev : String) × (v
        ≡ line_value timestamp entry prev))
    ⊎ ((m : Marker) × (v ≡ marker_value m))

-- Two lines hold the same under the keys of the chain, whatever the order of their keys and whatever
-- else they hold.
pub record Agrees (v w : Value) : Type 0 where
  pub version : get "v" w ≡ get "v" v
  pub prev : get "prev" w ≡ get "prev" v
  pub marker : get "marker" w ≡ get "marker" v
  pub rotated_from : get "rotated_from" w ≡ get "rotated_from" v
  pub resumed : get "resumed" w ≡ get "resumed" v

-- The parser reads each line that the log writes, and finds the keys of the chain as they were
-- written.
abbrev pub IsRead : (Value → String) → (String → Reply Value) → Type 0
IsRead to_string parse =
    (v : Value) → IsLine v → (w : Value) × (parse (to_string v) ≡ given w) × Agrees v w

module _ (parse : String → Reply Value) (sha256_hex : String → String) where
  pub record IsVerified (lines : List String) (torn : String) : Type 0 where
    pub last : String
    pub count : ℕ
    pub is_last : last? lines ≡ some last
    pub whole : torn ≡ ""
    pub verifies : verify_chain parse sha256_hex lines "" ≡ sound count
    pub fits : len last < tail_scan_bytes

  abbrev pub IsGood : File → Type 0
  IsGood f = IsIdle f ⊎ (IsVerified f.lines f.torn ⊎ HasLong f)

  -- A line that records `prev` goes on with the file.
  abbrev pub Follows : String → File → Type 0
  Follows prev f = HasLong f ⊎ ((v : IsVerified f.lines f.torn) × (prev ≡ sha256_hex v.last))

  pub record DiskSound (d : Disk) : Type 0 where
    pub files : (id : ℕ) → IsGood (d.file id)
    pub quiet : IsQuiet d.faults
    pub known : All (λ (name : String × ℕ). name.1 < d.next) d.names

  pub record LogSound (log : OpenLog) (d : Disk) : Type 0 where
    pub follows : Follows log.prev (d.file log.file)
    pub locked : (d.file log.file).taken ≡ true
    pub known : log.file < d.next

  -- Every file verifies or is empty, unless it holds a line that is too long, and the open log goes
  -- on with its file, which it has locked.
  pub record IsSound (s : Sink) : Type 0 where
    pub disk : DiskSound s.disk
    pub log : LogSound s.log s.disk
