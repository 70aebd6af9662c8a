-- ===== src/TeacherSpend/Journal/Files.antt =====
-- The disk of `ResponseJournal` in teacher_spend.py: what a path holds after a write, a removal and
-- `discard_touched`.
use semant_script.Prelude.{
  ℕ, ◌+◌, ◌≡◌, refl, sym, ap, inl, inr, Bool, true, false, not, ◌&&◌, List, [], ◌∷◌, none, some,
  arith, Bool-cases, Option-cases, ◌∙◌, if◌then◌else◌,
}
use semant_script.Python.Text.{text_eq, text_eq→eq, text_eq_refl}
use semant_script.SemanticJson.Node.{Json}
use semant_script.TeacherSpend.Journal.{
  FilePath, Disk, path_eq, path_mem, read_file, write_file, remove_file, Journal, distinct_paths,
  Outside, drop_paths, discard_touched, exists,
}

pub path_eq_refl : (p : FilePath) → path_eq p p ≡ true
unfolding path_eq
path_eq_refl p = rw (text_eq_refl p.0, text_eq_refl p.1) refl

both : (a b : Bool) → (a && b) ≡ true → (a ≡ true) × (b ≡ true)
both a b e = ground arith

pub path_eq→eq : (p q : FilePath) → path_eq p q ≡ true → p ≡ q
unfolding path_eq
path_eq→eq p q e =
    let (folder, name) = both (text_eq p.0 q.0) (text_eq p.1 q.1) e in
    rw (text_eq→eq p.0 q.0 folder, text_eq→eq p.1 q.1 name) refl

-- two tests of paths of which the first holds of the same
path_eq_other : (p q r : FilePath) → path_eq p q ≡ false → path_eq q r ≡ true → path_eq p r ≡ false
path_eq_other p q r other same = rw (← path_eq→eq q r same) other

pub read_file-write_file :
    (p : FilePath) (j : Json) (d : Disk) → read_file p (write_file p j d) ≡ some (some j)
unfolding read_file write_file
read_file-write_file p j [] = rw (path_eq_refl p) refl
read_file-write_file p j ((q, c) ∷ d) = elim (Bool-cases (path_eq p q)) [
  | inl same ↦ rw (same, same) refl
  | inr other ↦ rw (other, other) (read_file-write_file p j d)
]

pub read_file-write_other :
    (p q : FilePath) (j : Json) (d : Disk)
    → path_eq p q ≡ false
    → read_file p (write_file q j d) ≡ read_file p d
unfolding read_file write_file
read_file-write_other p q j [] e = rw e refl
read_file-write_other p q j ((r, c) ∷ d) e = elim (Bool-cases (path_eq q r)) [
  | inl same ↦ rw (same, path_eq_other p q r e same) refl
  | inr other ↦
      rw other (ap (λ o. if path_eq p r then some c else o) (read_file-write_other p q j d e))
]

pub read_file-remove_file : (p : FilePath) (d : Disk) → read_file p (remove_file p d) ≡ none
unfolding read_file remove_file
read_file-remove_file p [] = refl
read_file-remove_file p ((q, c) ∷ d) = elim (Bool-cases (path_eq p q)) [
  | inl same ↦ rw same (read_file-remove_file p d)
  | inr other ↦ rw (other, other) (read_file-remove_file p d)
]

pub read_file-remove_other :
    (p q : FilePath) (d : Disk)
    → path_eq p q ≡ false
    → read_file p (remove_file q d) ≡ read_file p d
unfolding read_file remove_file
read_file-remove_other p q [] e = refl
read_file-remove_other p q ((r, c) ∷ d) e = elim (Bool-cases (path_eq q r)) [
  | inl same ↦ rw (same, path_eq_other p q r e same) (read_file-remove_other p q d e)
  | inr other ↦
      rw other (ap (λ o. if path_eq p r then some c else o) (read_file-remove_other p q d e))
]

mem_same :
    (p q : FilePath) (ps : List FilePath) → path_eq p q ≡ true → path_mem q ps ≡ path_mem p ps
mem_same p q ps e = ap (λ r. path_mem r ps) (sym (path_eq→eq p q e))

distinct_paths-seen :
    (met ps : List FilePath) (q : FilePath)
    → path_mem q met ≡ true
    → distinct_paths met (q ∷ ps) ≡ distinct_paths met ps
unfolding distinct_paths
distinct_paths-seen met ps q e = rw (distinct_paths, e) refl

distinct_paths-new :
    (met ps : List FilePath) (q : FilePath)
    → path_mem q met ≡ false
    → distinct_paths met (q ∷ ps) ≡ q ∷ distinct_paths (q ∷ met) ps
unfolding distinct_paths
distinct_paths-new met ps q e = rw (distinct_paths, e) refl

path_mem-distinct_paths :
    (p : FilePath) (met ps : List FilePath)
    → path_mem p (distinct_paths met ps) ≡ (not (path_mem p met) && path_mem p ps)
unfolding path_mem distinct_paths
path_mem-distinct_paths p met [] = ground arith
path_mem-distinct_paths p met (q ∷ ps) = elim (Bool-cases (path_mem q met)) [
  | inl seen ↦
      rw (distinct_paths-seen met ps q seen, path_mem-distinct_paths p met ps)
        (elim (Bool-cases (path_eq p q)) [
          | inl same ↦
              let met_too : path_mem p met ≡ true = sym (mem_same p q met same) ∙ seen in
              rw met_too refl
          | inr other ↦ rw other refl
        ])
  | inr new ↦ rw (distinct_paths-new met ps q new) (elim (Bool-cases (path_eq p q)) [
    | inl same ↦
        let unmet : path_mem p met ≡ false = sym (mem_same p q met same) ∙ new in
        rw (same, unmet) refl
    | inr other ↦ rw (other, path_mem-distinct_paths p (q ∷ met) ps, other) refl
  ])
]

module _ (o : Outside) (removable : (p : FilePath) → o.removable p ≡ true) where
  -- the file is gone, whether it was there or not
  read_file-dropped :
      (p q : FilePath) (d : Disk)
      → read_file p (if exists (read_file q d) && o.removable q then remove_file q d else d)
        ≡ (if path_eq p q then none else read_file p d)
  read_file-dropped p q d = elim (Option-cases (read_file q d)) [
    | inl absent ↦ rw absent (elim (Bool-cases (path_eq p q)) [
      | inl same ↦ rw same (ap (λ r. read_file r d) (path_eq→eq p q same) ∙ absent)
      | inr other ↦ rw other refl
    ])
    | inr (c, present) ↦
        rw (present, removable q)
          (elim (Bool-cases (path_eq p q)) [
            | inl same ↦ rw same (
                ap (λ r. read_file r (remove_file q d)) (path_eq→eq p q same)
                ∙ read_file-remove_file q d)
            | inr other ↦ rw other (read_file-remove_other p q d other)
          ])
  ]

  read_file-drop_paths :
      (p : FilePath) (ps : List FilePath) (n : ℕ) (d : Disk)
      → read_file p (drop_paths o ps n d).1 ≡ (if path_mem p ps then none else read_file p d)
  unfolding path_mem drop_paths
  read_file-drop_paths p [] n d = refl
  read_file-drop_paths p (q ∷ ps) n d =
      let after = if exists (read_file q d) && o.removable q then remove_file q d else d in
      let count = if exists (read_file q d) && o.removable q then n + 1 else n in
      read_file-drop_paths p ps count after ∙ (rw (read_file-dropped p q d) (ground arith))

  -- Where every file can be removed, `discard_touched` leaves no touched entry on the disk and every
  -- other file as it was, and forgets what was touched.
  pub discard_touched_lem :
      (p : FilePath) (d : Disk) (j : Journal)
      → (read_file p (discard_touched o d j).1
          ≡ (if path_mem p j.touched then none else read_file p d))
        × ((discard_touched o d j).2.touched ≡ [])
  unfolding discard_touched path_mem
  discard_touched_lem p d j = (
    read_file-drop_paths p (distinct_paths [] j.touched) 0 d
        ∙ ap (λ b. if b then none else read_file p d) (path_mem-distinct_paths p [] j.touched),
    refl,
  )
