-- ===== src/Files/System.antt =====
-- What src/stores/file_store.rs uses of `std::fs`: the files of the store's directory, each a list
-- of bytes under its name. The operating system may refuse any call, with an error code; a write
-- that it refuses may have written a part of its bytes.
use rs_merkle_tree.Base.{
  ◌^◌, true, none, [], ltb, leb, ◌+◌, drop, take, length, ◌-◌, replicate, list_eq, false, ◌++◌,
  if◌then◌else◌, Bool, some, Option, ℕ, List,
}
use rs_merkle_tree.Run.{ok, io, store_error, err, Run}
use rs_merkle_tree.Run.Method.{Method}

abbrev pub FileName : Type 0
FileName = List ℕ

pub data Call : Type 0 where
  create_dir : Call
  exists : FileName → Call
  open_file : FileName → Call
  metadata : FileName → Call
  read_at : FileName → ℕ → Call
  write_at : FileName → ℕ → Call

pub record Disk : Type 0 where
  pub contents : FileName → Option (List ℕ)
  -- The error of a refused call, and how many bytes it had written.
  pub refusal : Call → Option (ℕ × ℕ)

-- `io_err`
abbrev pub io_err {ℓ} : {A : Type ℓ} → ℕ → Run A
io_err code = err (store_error (io code))

-- The call's error, where the system refuses it, and what the call does otherwise.
abbrev pub attempt {ℓ} : {A : Type ℓ} → Disk → Call → Run A → Run A
attempt disk call result = elim (disk.refusal call) [ some (code, _) ↦ io_err code | none ↦ result ]

-- ENOENT, EFBIG, and Rust's error for a file that ends too early.
abbrev pub not_found : ℕ
not_found = 2

abbrev pub too_big : ℕ
too_big = 27

abbrev pub unexpected_eof : ℕ
unexpected_eof = 0

-- `Path::exists`: a refused call counts as no.
abbrev pub path_exists : Disk → FileName → Bool
path_exists disk name = elim (disk.refusal (exists name)) [
  | some _ ↦ false
  | none ↦ elim (disk.contents name) [ none ↦ false | some _ ↦ true ]
]

abbrev pub put_contents : Disk → FileName → List ℕ → Disk
put_contents disk name bytes = record disk {
  contents = λ other. if list_eq other name then some bytes else disk.contents other;
}

-- `OpenOptions` with `read` and `write`: the file has to be there.
abbrev pub open_existing : Disk → FileName → Run (Unit {0})
open_existing disk name =
    attempt disk (open_file name)
      (elim (disk.contents name) [ none ↦ io_err not_found | some _ ↦ ok tt ])

-- With `create` too, and without `truncate`: a missing file is made empty, another is as it was.
abbrev pub open_or_create : FileName → Method Disk (Unit {0})
open_or_create name disk = elim (disk.refusal (open_file name)) [
  | some (code, _) ↦ (disk, io_err code)
  | none ↦ elim (disk.contents name) [
    | none ↦ (put_contents disk name [], ok tt)
    | some _ ↦ (disk, ok tt)
  ]
]

-- `file.metadata()?.len()`
abbrev pub file_len : Disk → FileName → Run ℕ
file_len disk name =
    attempt disk (metadata name)
      (elim (disk.contents name) [ none ↦ io_err not_found | some bytes ↦ ok (length bytes) ])

-- `read_exact_at` of `n` bytes
abbrev pub read_exact_at : Disk → FileName → ℕ → ℕ → Run (List ℕ)
read_exact_at disk name offset n = attempt disk (read_at name offset) (elim (disk.contents name) [
  | none ↦ io_err not_found
  | some bytes ↦
      if leb (offset + n) (length bytes)
      then ok (take n (drop offset bytes))
      else io_err unexpected_eof
])

-- The bytes of a file after a write at `offset`: a gap before it is filled with zeros.
abbrev pub write_over : List ℕ → ℕ → List ℕ → List ℕ
write_over bytes offset written =
    let padded = bytes ++ replicate (offset - length bytes) 0 in
    take offset padded ++ (written ++ drop (offset + length written) padded)

-- `write_all_at`. A file has fewer than `2 ^ 63` bytes.
abbrev pub write_all_at : FileName → ℕ → List ℕ → Method Disk (Unit {0})
write_all_at name offset written disk = elim (disk.contents name) [
  | none ↦ (disk, io_err not_found)
  | some bytes ↦ elim (disk.refusal (write_at name offset)) [
    | some (code, n) ↦
        (put_contents disk name (write_over bytes offset (take n written)), io_err code)
    | none ↦
        if ltb (offset + length written) (2 ^ 63)
        then (put_contents disk name (write_over bytes offset written), ok tt)
        else (disk, io_err too_big)
  ]
]
