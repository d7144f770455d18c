-- ===== src/Io/Files.antt =====
-- Regular files, as far as the programs of pset3 rely on them: what the system calls do to a file's
-- bytes and its offset when no error occurs, for a file that was opened for it.
use cs61_f18_psets.Base.{
  ℕ, zero, suc, ◌+◌, ◌≡◌, Option, none, some, List, [], ◌∷◌, get_elem?, length,
}
use cs61_f18_psets.Io.Os.{Os}

pub record FileView : Type 0 where
  pub bytes : List ℕ
  pub offset : ℕ

-- A byte written at an offset; a gap behind the end is filled with zeros.
abbrev pub write_at : List ℕ → ℕ → ℕ → List ℕ
write_at [] zero c = c ∷ []
write_at [] (suc n) c = 0 ∷ write_at [] n c
write_at (x ∷ xs) zero c = c ∷ xs
write_at (x ∷ xs) (suc n) c = x ∷ write_at xs n c

-- One byte at the offset, or the end of the file.
abbrev pub byte_read : Option ℕ → List ℕ
byte_read none = []
byte_read (some c) = c ∷ []

abbrev pub step_past : FileView → FileView
step_past f = record f { offset = f.offset + length (byte_read (get_elem? f.bytes f.offset)) }

abbrev pub put_byte : ℕ → FileView → FileView
put_byte c f = record { bytes = write_at f.bytes f.offset c; offset = f.offset + 1 }

-- How the calls act on the files `inf`, open for reading, and `outf`, open for writing.
pub record Regular (os : Os) (inf outf : ℕ) : Type 0 where
  pub source : os.State → FileView
  pub sink : os.State → FileView
  pub read_result :
      (st : os.State)
      → (os.read inf 1 st).0 ≡ some (byte_read (get_elem? ((source st).bytes) ((source st).offset)))
  pub read_source : (st : os.State) → source (os.read inf 1 st).1 ≡ step_past (source st)
  pub read_sink : (st : os.State) → sink (os.read inf 1 st).1 ≡ sink st
  pub write_result : (c : ℕ) (st : os.State) → (os.write outf (c ∷ []) st).0 ≡ some 1
  pub write_sink :
      (c : ℕ) (st : os.State) → sink (os.write outf (c ∷ []) st).1 ≡ put_byte c (sink st)
  pub write_source : (c : ℕ) (st : os.State) → source (os.write outf (c ∷ []) st).1 ≡ source st
  pub seek_result : (p : ℕ) (st : os.State) → (os.lseek inf p st).0 ≡ some p
  pub seek_source :
      (p : ℕ) (st : os.State) → source (os.lseek inf p st).1 ≡ record (source st) { offset = p }
  pub seek_sink : (p : ℕ) (st : os.State) → sink (os.lseek inf p st).1 ≡ sink st
  pub seek_out_result : (p : ℕ) (st : os.State) → (os.lseek outf p st).0 ≡ some p
  pub seek_out_sink :
      (p : ℕ) (st : os.State) → sink (os.lseek outf p st).1 ≡ record (sink st) { offset = p }
  pub seek_out_source : (p : ℕ) (st : os.State) → source (os.lseek outf p st).1 ≡ source st
