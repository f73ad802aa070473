-- ===== src/Log/File.antt =====
-- log/log.cpp, the file of CRingLog: InitLogPath's level, and DecisFile, which chooses the file.
pub mod Rotate
pub mod Joined
pub mod History
pub mod Saved
pub mod NextDay
mod Tests
use wslyh.Base.{
  Bool, Bytes, List, Option, [], if◌then◌else◌, leb, length, none, not, some, suc, true, zero, ℕ,
  ◌&&◌, ◌*◌, ◌++◌, ◌+◌, ◌-◌, ◌==◌, ◌∷◌,
}

abbrev pub one_log_file_limit : ℕ
one_log_file_limit = 1 * 1024 * 1024 * 1024

-- The path that sprintf makes of the directory, the name of the program and the process, which stay,
-- and of the day and the number behind `.log`, 0 for none. Different names are different paths.
pub record Name : Type 0 where
  pub of_year : ℕ
  pub of_mon : ℕ
  pub of_day : ℕ
  pub number : ℕ

unfoldable pub same_name : Name → Name → Bool
same_name m n =
    m.of_year == n.of_year && m.of_mon == n.of_mon && m.of_day == n.of_day && m.number == n.number

-- the files with their contents
abbrev pub Files : Type 0
Files = Name → Option Bytes

unfoldable pub put : Files → Name → Option Bytes → Files
put files name contents n = if same_name n name then contents else files n

-- rename(old, new), of different paths
unfoldable pub rename : Name → Name → Files → Files
rename old new files = elim (files old) [
  | none ↦ files
  | some contents ↦ put (put files old none) new (some contents)
]

-- m_pFp, with the position that ftell gives, and the members that DecisFile uses
pub record LogFile : Type 0 where
  pub files : Files
  pub fp : Option ℕ
  pub year : ℕ
  pub mon : ℕ
  pub day : ℕ
  pub log_cnt : ℕ
  pub env : Bool

-- fopen(path, "w"), which succeeds or not
abbrev pub open_log : Bool → Name → LogFile → LogFile
open_log opens name s =
    if opens
    then record s { files = put s.files name (some []); fp = some 0 }
    else record s { fp = none }

abbrev pub count : Bool → ℕ → ℕ → ℕ
count opened old new = if opened then new else old

module _ (year mon day : ℕ) where
  abbrev pub numbered : ℕ → Name
  numbered i = record { of_year = year; of_mon = mon; of_day = day; number = i }

  -- the loop, from `i` down to 1
  unfoldable pub rename_loop : ℕ → Files → Files
  rename_loop zero files = files
  rename_loop (suc k) files = rename_loop k (rename (numbered (k + 1)) (numbered (k + 1 + 1)) files)

  -- the branch for a file that is too long
  unfoldable pub rotate : Bool → LogFile → LogFile
  unfolding rename_loop
  rotate opens s =
      let renamed = rename (numbered 0) (numbered 1) (rename_loop (s.log_cnt - 1) s.files) in
      let opened = open_log opens (numbered 0) (record s { files = renamed }) in
      record opened { log_cnt = count opens s.log_cnt (s.log_cnt + 1) }

  -- the branch for the first file
  unfoldable pub first_file : Bool → LogFile → LogFile
  first_file opens s =
      let opened = open_log opens (numbered 0) (record s { year = year; mon = mon; day = day }) in
      record opened { log_cnt = count opens s.log_cnt (s.log_cnt + 1) }

  -- the choice where the directory is there, by m_pFp
  abbrev pub with_env : Bool → LogFile → Option ℕ → LogFile × Bool
  with_env opens s none = (first_file opens s, opens)
  with_env opens s (some position) =
      if not (s.day == day)
      then (let name : Name = record {
        of_year = s.year;
        of_mon = s.mon;
        of_day = day;
        number = 0;
      } in
          let opened = open_log opens name (record s { day = day }) in
          (record opened { log_cnt = count opens s.log_cnt 1 }, opens))
      else if leb one_log_file_limit position
      then (rotate opens s, opens)
      else (s, true)

  -- DecisFile; `opens` is whether its fopen succeeds, and the result whether there is a file.
  unfoldable pub decis_file : Bool → LogFile → LogFile × Bool
  decis_file opens s =
      if s.env
      then with_env opens s s.fp
      else (record s { fp = if opens then some 0 else none }, opens)

abbrev pub contents_of : Option Bytes → Bytes
contents_of none = []
contents_of (some contents) = contents

-- fwrite and fflush of a text to an open file; to /null where there is no directory
unfoldable pub write_text : Bytes → ℕ → LogFile → LogFile
write_text text position s =
    let name = numbered s.year s.mon s.day 0 in
    let longer = put s.files name (some (contents_of (s.files name) ++ text)) in
    record s { fp = some (position + length text); files = if s.env then longer else s.files }

abbrev pub write_to : Option ℕ → Bytes → LogFile → LogFile
write_to none text s = s
write_to (some position) text s = write_text text position s

-- PersistLog between its two locks, for a cell with the text; whether it goes on to the second.
unfoldable pub save : ℕ → ℕ → ℕ → Bool → Bytes → LogFile → LogFile × Bool
save year mon day opens text s =
    let (s', got) = decis_file year mon day opens s in
    (if got then write_to s'.fp text s' else s', got)

-- The rounds of PersistLog over the cells with these texts, on one day: the first cell is tried again
-- where there is no file. What is left at the end.
unfoldable pub save_all : ℕ → ℕ → ℕ → List Bool → List Bytes → LogFile → LogFile × List Bytes
save_all year mon day [] texts s = (s, texts)
save_all year mon day (opens ∷ more) [] s = (s, [])
save_all year mon day (opens ∷ more) (text ∷ texts) s =
    let (s', got) = save year mon day opens text s in
    save_all year mon day more (if got then texts else text ∷ texts) s'
