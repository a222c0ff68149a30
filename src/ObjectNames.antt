-- ===== src/ObjectNames.antt =====
-- cbcc-util/cbcc_util.c: object names such as `ou.default` and table names such as `ou_default`.
use chroot_cbccd.Base.{
  ℕ, zero, suc, ◌+◌, ◌-◌, ◌^◌, ◌<◌, ◌≡◌, ◌≢◌, refl, true, false, ap, ap₂, [], ◌∷◌, map, arith,
  length, take, take_all, ◌==◌, if◌then◌else◌, Text,
}
use chroot_cbccd.Memory.{sub_size, sub_size-eq-sub}

abbrev pub dot : ℕ
dot = 46

abbrev pub underscore : ℕ
underscore = 95

abbrev pub replace : ℕ → ℕ → ℕ → ℕ
replace old new c = if c == old then new else c

-- The loop of both functions, with `i` characters written into an array of `s` bytes; at s = 0
-- the limit wraps, and there is none.
copy_replaced : ℕ → ℕ → ℕ → ℕ → Text → Text
copy_replaced old new s i [] = []
copy_replaced old new s i (c ∷ cs) =
    if i == sub_size s 1 then [] else replace old new c ∷ copy_replaced old new s (i + 1) cs

pub get_tblname_by_objname : Text → ℕ → Text
get_tblname_by_objname obj_name s = copy_replaced dot underscore s 0 obj_name

pub get_objtype_by_tblname : Text → ℕ → Text
get_objtype_by_tblname tbl_name s = copy_replaced underscore dot s 0 tbl_name

-- No character of the text is `c`.
abbrev pub Without : ℕ → Text → Type 0
Without c [] = Unit {0}
Without c (x ∷ xs) = (x ≢ c) × Without c xs

copy_replaced-room :
    (old new s i room : ℕ) (text : Text)
    → 0 < s
    → s < 2 ^ 64
    → i + room ≡ s - 1
    → copy_replaced old new s i text ≡ map (replace old new) (take room text)
unfolding copy_replaced
copy_replaced-room old new s i zero [] h k e = refl
copy_replaced-room old new s i (suc n) [] h k e = refl
copy_replaced-room old new s i zero (c ∷ cs) h k e =
    let full : (i == sub_size s 1) ≡ true =
      rw (sub_size-eq-sub s 1 (omega arith) k) (ground (arith, e)) in
    rw full refl
copy_replaced-room old new s i (suc n) (c ∷ cs) h k e =
    let more : (i == sub_size s 1) ≡ false =
      rw (sub_size-eq-sub s 1 (omega arith) k) (ground (arith, e)) in
    rw more (
      ap (λ t. replace old new c ∷ t)
        (copy_replaced-room old new s (i + 1) n cs h k (omega (arith, e))))

-- A copy into an array of `s` bytes: the first `s - 1` characters, each one replaced.
copy_replaced-take :
    (old new s : ℕ) (text : Text)
    → 0 < s
    → s < 2 ^ 64
    → copy_replaced old new s 0 text ≡ map (replace old new) (take (s - 1) text)
copy_replaced-take old new s text h k =
    copy_replaced-room old new s 0 (s - 1) text h k (omega arith)

length-map : (f : ℕ → ℕ) (text : Text) → length (map f text) ≡ length text
length-map f [] = refl
length-map f (c ∷ cs) = ap suc (length-map f cs)

replace-replace : (old new c : ℕ) → c ≢ new → replace new old (replace old new c) ≡ c
replace-replace old new c h = ground arith

map-replace :
    (old new : ℕ) (text : Text)
    → Without new text
    → map (replace new old) (map (replace old new) text) ≡ text
map-replace old new [] w = refl
map-replace old new (c ∷ cs) w =
    ap₂ ◌∷◌ (replace-replace old new c w.0) (map-replace old new cs w.1)

copy_replaced-copy_replaced :
    (old new s : ℕ) (text : Text)
    → length text < s
    → s < 2 ^ 64
    → Without new text
    → copy_replaced new old s 0 (copy_replaced old new s 0 text) ≡ text
copy_replaced-copy_replaced old new s text h k w =
    let whole : copy_replaced old new s 0 text ≡ map (replace old new) text =
      rw (copy_replaced-take old new s text (omega arith) k, take_all (s - 1) text (omega arith))
        refl in
    rw
      (
        whole,
        copy_replaced-take new old s (map (replace old new) text) (omega arith) k,
        take_all (s - 1) (map (replace old new) text)
            (omega (arith, length-map (replace old new) text)),
      )
      (map-replace old new text w)

-- An object name without an underscore that fits the array comes back from its table name; the
-- table name is the object name with each dot replaced.
pub get_objtype-get_tblname :
    (obj_name : Text) (s : ℕ)
    → length obj_name < s
    → s < 2 ^ 64
    → Without underscore obj_name
    → (get_tblname_by_objname obj_name s ≡ map (replace dot underscore) obj_name)
      × (get_objtype_by_tblname (get_tblname_by_objname obj_name s) s ≡ obj_name)
unfolding get_tblname_by_objname get_objtype_by_tblname
get_objtype-get_tblname obj_name s h k w = (
  rw
      (
        copy_replaced-take dot underscore s obj_name (omega arith) k,
        take_all (s - 1) obj_name (omega arith),
      )
      refl,
  copy_replaced-copy_replaced dot underscore s obj_name h k w,
)

-- Of a name that is too long, the first `s - 1` characters are written, whichever function copies.
pub get_tblname-take :
    (name : Text) (s : ℕ)
    → 0 < s
    → s < 2 ^ 64
    → (get_tblname_by_objname name s ≡ map (replace dot underscore) (take (s - 1) name))
      × (get_objtype_by_tblname name s ≡ map (replace underscore dot) (take (s - 1) name))
unfolding get_tblname_by_objname get_objtype_by_tblname
get_tblname-take name s h k =
    (copy_replaced-take dot underscore s name h k, copy_replaced-take underscore dot s name h k)
