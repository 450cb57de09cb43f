-- ===== src/Startup/Folders.antt =====
-- Which folders are there after createDirectoryRecursive.
use vscp_mqtt_daemon.Prelude.{
  ℕ, Bool, true, false, ◌||◌, [], ◌∷◌, ◌++◌, append_assoc, append-nil, Option, none, some, Text,
  bytes, lacks, text_eq, text_eq_iff, length, ◌==◌, ◌≡◌, ◌≢◌, ◌⊎◌, refl, arith, if◌then◌else◌, inl,
  inr, Bool-cases, if_cases,
}
use vscp_mqtt_daemon.Startup.{
  MakeDir, made, already, refused, FileSystem, create_sub, create_from, create_directory_recursive,
}

-- The part of a path in front of its last slash; none if it has no slash.
unfoldable pub folder_of : Text → Option Text
folder_of [] = none
folder_of (c ∷ s) = elim (folder_of s) [
  | some folder ↦ some (c ∷ folder)
  | none ↦ if c == b'/' then some [] else none
]

folder_of-lacks : (name : Text) → lacks b'/' name ≡ true → folder_of name ≡ none
unfolding folder_of
folder_of-lacks [] h = refl
folder_of-lacks (c ∷ s) h = ground (arith, folder_of-lacks s)

-- The folder of a path is what stands in front of its last slash.
pub folder_of-append :
    (folder name : Text)
    → lacks b'/' name ≡ true
    → folder_of (folder ++ (b'/' ∷ name)) ≡ some folder
unfolding folder_of
folder_of-append [] name h = ground (arith, folder_of-lacks name h)
folder_of-append (c ∷ folder) name h = ground (arith, folder_of-append folder name h)

-- Another byte behind it changes nothing.
folder_of-snoc :
    (front : Text) (c : ℕ) → (c == b'/') ≡ false → folder_of (front ++ (c ∷ [])) ≡ folder_of front
unfolding folder_of
folder_of-snoc [] c h = ground arith
folder_of-snoc (x ∷ front) c h = ground (arith, folder_of-snoc front c h)

folder_of-slash :
    (front : Text) (c : ℕ) → (c == b'/') ≡ true → folder_of (front ++ (c ∷ [])) ≡ some front
unfolding folder_of
folder_of-slash [] c h = ground arith
folder_of-slash (x ∷ front) c h = ground (arith, folder_of-slash front c h)

-- What is relied on of the file system: a folder that is made is found afterwards, and nothing that
-- was there is lost.
pub record IsFileSystem (F : FileSystem) : Type 0 where
  pub made_law : (p : Text) (s : F.S) {s' : F.S} → F.make_dir p s ≡ made s' → F.finds p s' ≡ true
  pub kept_law :
      (p q : Text) (s : F.S) {s' : F.S}
      → F.make_dir p s ≡ made s'
      → F.finds q s ≡ true
      → F.finds q s' ≡ true

skipped :
    (sub : Text)
    → (length sub == 0 || text_eq sub (bytes "/")) ≡ true
    → sub ≢ []
    → sub ≢ bytes "/"
    → ⊥
skipped [] h ne ns = ne refl
skipped (x ∷ xs) h ne ns = ns ((text_eq_iff (x ∷ xs) (bytes "/")).0 (ground arith))

named : (sub : Text) → (length sub == 0 || text_eq sub (bytes "/")) ≡ false → sub ≢ []
named [] e = ground arith
named (x ∷ xs) e = λ n. ground arith

module _ (F : FileSystem) where
  -- `stat` finds the path, or else `mkdir` says that it exists, as for a link that leads nowhere or
  -- for what another process has just made.
  abbrev pub Exists : Text → F.S → Type 0
  Exists p s = (F.finds p s ≡ true) ⊎ (F.make_dir p s ≡ already)

  -- The same of what is no name.
  abbrev pub Stands : Text → F.S → Type 0
  Stands p s = p ≢ [] → p ≢ bytes "/" → Exists p s

  -- The folder that a path stands in, if it names one.
  abbrev pub Above : Option Text → F.S → Type 0
  Above none s = Unit
  Above (some q) s = Stands q s

  -- `mkdir` meets no error but EEXIST for a name whose folder exists.
  abbrev pub Takes : Type 0
  Takes = (p : Text) (s : F.S) → p ≢ [] → Above (folder_of p) s → F.make_dir p s ≢ refused

  -- Nothing is lost from `s` to `t`.
  abbrev pub Keeps : F.S → F.S → Type 0
  Keeps s t = (q : Text) → F.finds q s ≡ true → F.finds q t ≡ true

module _ (F : FileSystem) (law : IsFileSystem F) (takes : Takes F) where
  -- A call succeeds, loses nothing, and what it is for is there.
  abbrev Done : Text → F.S → Bool × F.S → Type 0
  Done p s out = (out.0 ≡ true) × Keeps F s out.1 × Stands F p out.1

  make_dir_lem :
      (sub : Text) (s : F.S) (m : MakeDir F.S)
      → F.make_dir sub s ≡ m
      → sub ≢ []
      → Above F (folder_of sub) s
      → Done sub s (elim m [ made s' ↦ (true, s') | already ↦ (true, s) | refused ↦ (false, s) ])
  make_dir_lem sub s (made s') e ne above =
      (refl, λ q k. law.kept_law sub q s e k, λ n ns. inl (law.made_law sub s e))
  make_dir_lem sub s already e ne above = (refl, λ q k. k, λ n ns. inr e)
  make_dir_lem sub s refused e ne above = absurd (takes sub s ne above e)

  create_sub_lem :
      (sub : Text) (s : F.S) → Above F (folder_of sub) s → Done sub s (create_sub F sub s)
  unfolding create_sub
  create_sub_lem sub s above = elim (Bool-cases (length sub == 0 || text_eq sub (bytes "/"))) [
    | inl e ↦ rw (e, create_sub) (refl, λ q k. k, λ ne ns. absurd (skipped sub e ne ns))
    | inr e ↦ elim (Bool-cases (F.finds sub s)) [
      | inl there ↦ rw (e, create_sub, there) (refl, λ q k. k, λ ne ns. inl there)
      | inr new ↦
          rw (e, create_sub, new) (make_dir_lem sub s (F.make_dir sub s) refl (named sub e) above)
    ]
  ]

  -- A round of the loop, behind which the path up to here is a folder that exists.
  round_lem :
      (front : Text) (c : ℕ) (s : F.S)
      → Above F (folder_of front) s
      → let out = if c == b'/' then create_sub F front s else (true, s) in
        (out.0 ≡ true) × Keeps F s out.1 × Above F (folder_of (front ++ (c ∷ []))) out.1
  round_lem front c s above =
      if_cases
        (λ (out : Bool × F.S).
          (out.0 ≡ true) × Keeps F s out.1 × Above F (folder_of (front ++ (c ∷ []))) out.1)
        (c == b'/')
        (λ e.
          let (going, keeps, there) = create_sub_lem front s above in
          (going, keeps, rw (folder_of-slash front c e) there))
        (λ e. (refl, λ q k. k, rw (folder_of-snoc front c e) above))

  further :
      (p : Text) (s : F.S) (out more : Bool × F.S)
      → out.0 ≡ true
      → Keeps F s out.1
      → Done p out.1 more
      → Done p s (if out.0 then more else (false, out.1))
  further p s out more going keeps (ok, later, there) =
      rw going (ok, λ q k. later q (keeps q k), there)

  create_from_lem :
      (front rest : Text) (s : F.S)
      → Above F (folder_of front) s
      → Done (front ++ rest) s (create_from F front rest s)
  unfolding create_from
  create_from_lem front [] s above = rw (append-nil front) (create_sub_lem front s above)
  create_from_lem front (c ∷ rest) s above =
      let out : Bool × F.S = if c == b'/' then create_sub F front s else (true, s) in
      let (going, keeps, above') = round_lem front c s above in
      further (front ++ (c ∷ rest)) s out (create_from F (front ++ (c ∷ [])) rest out.1) going keeps
        (rw (append_assoc front (c ∷ []) rest) at
          (create_from_lem (front ++ (c ∷ [])) rest out.1 above'))

  -- createDirectoryRecursive succeeds for every path but the empty one, and then the path exists.
  -- Nothing that was there is lost.
  pub create_directory_recursive_lem :
      (c : ℕ) (rest : Text) (s : F.S)
      → Done (c ∷ rest) s (create_directory_recursive F (c ∷ rest) s)
  unfolding create_directory_recursive folder_of
  create_directory_recursive_lem c rest s =
      create_from_lem (c ∷ []) rest s
        (if_cases (λ o. Above F o s) (c == b'/') (λ e ne. absurd (ne refl)) (λ e. tt))
