-- ===== src/Cfg/Device.antt =====
-- `Cfg::device_at` against a walk from the path up to the root.
use kobzar.Base.{
  ℕ, zero, suc, ◌≤◌, ◌<◌, ◌≡◌, refl, List, [], ◌∷◌, Option, none, some, Option-cases, Bool, true,
  false, Bool-cases, inl, inr, ◌&&◌, ◌==◌, ltb, leb, if◌then◌else◌, length, take, le→leb, lt→ltb,
  le→ltb, dec_lt, arith,
}
use kobzar.Wal.Names.{same_text}
use kobzar.Cfg.{
  FilePath, DeviceConfig, default_device, starts_with, better, best_of, Formats, Cfg, device_at,
}

abbrev pub same_path : FilePath → FilePath → Bool
same_path [] [] = true
same_path [] (q ∷ qs) = false
same_path (p ∷ ps) [] = false
same_path (p ∷ ps) (q ∷ qs) = same_text q p && same_path ps qs

-- the first device whose path is the given one
abbrev pub device_for : FilePath → List DeviceConfig → Option DeviceConfig
device_for path [] = none
device_for path (d ∷ ds) = if same_path d.path path then some d else device_for path ds

-- The walk through the first `n` components of the path, then one less, and so on.
unfoldable pub walk_up : FilePath → ℕ → List DeviceConfig → Option DeviceConfig
walk_up path zero devices = device_for [] devices
walk_up path (suc n) devices =
    let higher = walk_up path n devices in
    elim (device_for (take (suc n) path) devices) [ some d ↦ some d | none ↦ higher ]

same_path-take :
    (path base : FilePath) (n : ℕ)
    → n ≤ length path
    → same_path base (take n path) ≡ (starts_with path base && (length base == n))
unfolding starts_with
same_path-take path [] zero h = refl
same_path-take [] [] (suc n) h = absurd (omega arith)
same_path-take (p ∷ path) [] (suc n) h = ground arith
same_path-take [] (b ∷ base) n h = ground arith
same_path-take (p ∷ path) (b ∷ base) zero h = ground arith
same_path-take (p ∷ path) (b ∷ base) (suc n) h = ground (arith, same_path-take path base n)

-- the better of two devices, the first where both are as long
abbrev longer : DeviceConfig → Option DeviceConfig → Option DeviceConfig
longer d none = some d
longer d (some e) = if ltb (length d.path) (length e.path) then some e else some d

device_for-length :
    (path : FilePath) (n : ℕ) (ds : List DeviceConfig) (d : DeviceConfig)
    → n ≤ length path
    → device_for (take n path) ds ≡ some d
    → length d.path ≡ n
device_for-length path n [] d h e = cc
device_for-length path n (x ∷ ds) d h e =
    ground (arith, same_path-take path x.path n h, device_for-length path n ds d)

walk_up-length :
    (path : FilePath) (n : ℕ) (ds : List DeviceConfig) (d : DeviceConfig)
    → n ≤ length path
    → walk_up path n ds ≡ some d
    → length d.path ≤ n
unfolding walk_up
walk_up-length path zero ds d h e = omega (arith, device_for-length path 0 ds d h e)
walk_up-length path (suc n) ds d h e = elim (Option-cases (device_for (take (suc n) path) ds)) [
  | inl higher ↦ omega (arith, walk_up-length path n ds d (omega arith) (rw (higher, walk_up) at e))
  | inr (x, here) ↦ ground (arith, device_for-length path (suc n) ds x h here)
]

walk_up_cons :
    (path : FilePath) (n : ℕ) (d : DeviceConfig) (ds : List DeviceConfig)
    → n ≤ length path
    → walk_up path n (d ∷ ds) ≡ (
        if starts_with path d.path && leb (length d.path) n
        then longer d (walk_up path n ds)
        else walk_up path n ds)
unfolding walk_up
walk_up_cons path zero d ds h = elim (Option-cases (device_for [] ds)) [
  | inl e ↦ ground (arith, same_path-take path d.path 0 h)
  | inr (x, e) ↦ ground (arith, same_path-take path d.path 0 h, device_for-length path 0 ds x h e)
]
walk_up_cons path (suc n) d ds h = elim (Option-cases (device_for (take (suc n) path) ds)) [
  | inl e ↦ elim (Option-cases (walk_up path n ds)) [
    | inl lower ↦ ground (arith, same_path-take path d.path (suc n) h, walk_up_cons path n d ds)
    | inr (y, lower) ↦ ground (
      arith,
      same_path-take path d.path (suc n) h,
      walk_up_cons path n d ds,
      walk_up-length path n ds y,
    )
  ]
  | inr (x, e) ↦
      ground (arith, same_path-take path d.path (suc n) h, device_for-length path (suc n) ds x h e)
]

starts_with-length :
    (path base : FilePath) → starts_with path base ≡ true → length base ≤ length path
unfolding starts_with
starts_with-length path [] h = omega arith
starts_with-length [] (b ∷ base) h = cc
starts_with-length (p ∷ path) (b ∷ base) h = ground (arith, starts_with-length path base)

walk_up-nil : (path : FilePath) (n : ℕ) → walk_up path n [] ≡ none
unfolding walk_up
walk_up-nil path zero = refl
walk_up-nil path (suc n) = walk_up-nil path n

abbrev paired : Option DeviceConfig → Option (DeviceConfig × ℕ)
paired none = none
paired (some d) = some (d, length d.path)

abbrev held : Option DeviceConfig → Option DeviceConfig → Option DeviceConfig
held none found = found
held (some d) found = longer d found

longer-longer_lt :
    (x d : DeviceConfig) (w : Option DeviceConfig)
    → length x.path < length d.path
    → longer x (longer d w) ≡ longer d w
longer-longer_lt x d none h = ground arith
longer-longer_lt x d (some e) h = ground arith

longer-longer_le :
    (x d : DeviceConfig) (w : Option DeviceConfig)
    → length d.path ≤ length x.path
    → longer x (longer d w) ≡ longer x w
longer-longer_le x d none h = ground arith
longer-longer_le x d (some e) h = ground arith

-- the loop with the best device so far
best_of-walk_up :
    (path : FilePath) (b : Option DeviceConfig) (ds : List DeviceConfig)
    → best_of path (paired b) ds ≡ paired (held b (walk_up path (length path) ds))
unfolding better
best_of-walk_up path none [] = rw (walk_up-nil path (length path)) refl
best_of-walk_up path (some x) [] = rw (walk_up-nil path (length path)) refl
best_of-walk_up path none (d ∷ ds) = elim (Bool-cases (starts_with path d.path)) [
  | inl m ↦
      let h = starts_with-length path d.path m in
      rw
        (
          m,
          walk_up_cons path (length path) d ds (omega arith),
          m,
          le→leb (length d.path) (length path) h,
        )
        (best_of-walk_up path (some d) ds)
  | inr m ↦
      rw (m, walk_up_cons path (length path) d ds (omega arith), m) (best_of-walk_up path none ds)
]
best_of-walk_up path (some x) (d ∷ ds) = elim (Bool-cases (starts_with path d.path)) [
  | inr m ↦
      rw (m, walk_up_cons path (length path) d ds (omega arith), m)
        (best_of-walk_up path (some x) ds)
  | inl m ↦
      let h = le→leb (length d.path) (length path) (starts_with-length path d.path m) in
      rw (m, walk_up_cons path (length path) d ds (omega arith), m, h)
        (elim (dec_lt (length x.path) (length d.path)) [
          | yes lt ↦
              rw
                (
                  lt→ltb (length x.path) (length d.path) lt,
                  longer-longer_lt x d (walk_up path (length path) ds) lt,
                )
                (best_of-walk_up path (some d) ds)
          | no ge ↦
              rw
                (
                  le→ltb (length x.path) (length d.path) (omega arith),
                  longer-longer_le x d (walk_up path (length path) ds) (omega arith),
                )
                (best_of-walk_up path (some x) ds)
        ])
]

module _ (f : Formats) where
  -- device_at is the walk from the path up to the root: it answers the first device whose path is
  -- the path itself, else the first one whose path is its parent, and so on, and the default
  -- device if there is none on the way.
  pub device_at-walk_up :
      (cfg : Cfg f) (path : FilePath)
      → device_at f cfg path ≡ (elim (walk_up path (length path) cfg.file.io_device) [
        | none ↦ default_device
        | some device ↦ device
      ])
  unfolding device_at
  device_at-walk_up cfg path =
      let same = best_of-walk_up path none cfg.file.io_device in
      elim (Option-cases (walk_up path (length path) cfg.file.io_device)) [
        | inl e ↦ rw e (ground (arith, same))
        | inr (d, e) ↦ rw e (ground (arith, same))
      ]
