-- ===== src/Files/Reopen.antt =====
-- `FileStore::new` over the directory of a valid store.
use rs_merkle_tree.Node.{len}
use rs_merkle_tree.Files.{create_dir, new, FileStore, probe}
use rs_merkle_tree.Files.Valid.{level_bytes, IsValid}
use rs_merkle_tree.Files.Name.{level_file_name}
use rs_merkle_tree.Files.System.{metadata, open_file, FileName, Disk, Call, path_exists, exists}
use rs_merkle_tree.Run.{unwrap_or, ok}
use rs_merkle_tree.Base.{
  inl, inr, Bool-cases, length-append, ◌≤◌, ◌≢◌, ◌/◌, ap₂, ◌∙◌, none, length-take, ℕ, zero, suc,
  ◌+◌, ◌<◌, ◌≡◌, ap, false, some, List, [], ◌∷◌, ◌++◌, arith, length, get_elem?, take, take_all,
}

take-snoc {ℓ} :
    {A : Type ℓ} (xs : List A) (k : ℕ) (x : A)
    → get_elem? xs k ≡ some x
    → take k xs ++ x ∷ [] ≡ take (suc k) xs
take-snoc [] k x e = cc
take-snoc (y ∷ xs) zero x e = ap (λ z. z ∷ []) {x = x} {y = y} (cc)
take-snoc (y ∷ xs) (suc k) x e = ap (◌∷◌ y) (take-snoc xs k x e)

-- One round of the probing, at a level with a file and at one without.
probe-end :
    (fuel : ℕ) (disk : Disk) (files : List FileName) (counts : List ℕ)
    → disk.refusal (exists (level_file_name (length files))) ≡ none
    → disk.contents (level_file_name (length files)) ≡ none
    → probe (suc fuel) disk files counts
      ≡ some (ok (record { disk = disk; files = files; counts = counts }))
unfolding probe
probe-end fuel disk files counts refusal absent = ground arith

probe-next :
    (fuel : ℕ) (disk : Disk) (files : List FileName) (counts bytes : List ℕ)
    → ((c : Call) → disk.refusal c ≡ none)
    → disk.contents (level_file_name (length files)) ≡ some bytes
    → probe (suc fuel) disk files counts
      ≡ probe fuel disk
          (files ++ level_file_name (length files) ∷ [])
          (counts ++ (length bytes / len) ∷ [])
unfolding probe
probe-next fuel disk files counts bytes no_refusal there =
    let name = level_file_name (length files) in
    ground
      (arith, no_refusal (exists name), no_refusal (open_file name), no_refusal (metadata name))

module _ (s : FileStore) (v : IsValid s) where
  -- The probing from level `k` on, when the levels below it have been opened.
  probe_ok :
      (rounds k fuel : ℕ)
      → k + rounds ≡ length s.files
      → rounds < fuel
      → probe fuel s.disk (take k s.files) (take k s.counts) ≡ some (ok s)
  probe_ok rounds k zero e lt = absurd (omega arith)
  probe_ok zero k (suc fuel) e lt =
      rw (take_all k s.files (omega arith), take_all k s.counts (omega (arith, v.same)))
        (probe-end fuel s.disk s.files s.counts (v.no_refusal _) (v.beyond _ (omega arith)))
  probe_ok (suc rounds) k (suc fuel) e lt =
      let size : length (take k s.files) ≡ k = omega (arith, length-take k s.files) in
      let bytes = level_bytes s.disk k in
      let there : s.disk.contents (level_file_name (length (take k s.files))) ≡ some bytes =
        ap (λ l. s.disk.contents (level_file_name l)) size ∙ v.there k (omega arith) in
      probe-next fuel s.disk (take k s.files) (take k s.counts) bytes v.no_refusal there
      ∙ ap₂ (probe fuel s.disk)
          (ap (λ l. take k s.files ++ level_file_name l ∷ []) size
            ∙ take-snoc s.files k (level_file_name k) (v.named k (omega arith)))
          (take-snoc s.counts k (length bytes / len) (v.counted k (omega arith)))
      ∙ probe_ok rounds (suc k) fuel (omega arith) (omega arith)

  -- A valid store whose directory is opened again, with fuel for one round more than it has levels,
  -- comes back as it was.
  pub new-reopen : (fuel : ℕ) → length s.files < fuel → new fuel s.disk ≡ some (ok s)
  unfolding new
  new-reopen fuel enough = ground (arith, v.no_refusal create_dir, probe_ok (length s.files) 0 fuel)

probe-ne-none :
    (fuel n : ℕ) (disk : Disk) (files : List FileName) (counts : List ℕ)
    → path_exists disk (level_file_name n) ≡ false
    → length files ≤ n
    → n < length files + fuel
    → probe fuel disk files counts ≢ none
unfolding probe
probe-ne-none zero n disk files counts gap below enough = absurd (omega arith)
probe-ne-none (suc fuel) n disk files counts gap below enough =
    let name = level_file_name (length files) in
    let here : length files ≡ n → path_exists disk name ≡ false =
      λ (same : length files ≡ n). ap (λ l. path_exists disk (level_file_name l)) same ∙ gap in
    let later =
      λ (count : ℕ). probe-ne-none fuel n disk (files ++ name ∷ []) (counts ++ count ∷ []) gap in
    let bytes = unwrap_or (disk.contents name) [] in
    elim (Bool-cases (path_exists disk name)) [
      | inl found ↦
          ground (arith, found, here, later (length bytes / len), length-append files (name ∷ []))
      | inr missing ↦ ground (arith, missing)
    ]

-- Whatever the directory holds and the system refuses, `new` ends, with a store or a panic; fuel
-- for one round more than a level that has no file is enough.
pub new-ne-none :
    (fuel n : ℕ) (disk : Disk)
    → path_exists disk (level_file_name n) ≡ false
    → n < fuel
    → new fuel disk ≢ none
unfolding new
new-ne-none fuel n disk gap enough = ground (arith, probe-ne-none fuel n disk [] [] gap)
