-- ===== src/Center/Splice.antt =====
-- A rebuild of the list touches the rows between the shared front and the shared back, and no others.
use mathlib.Core.List.{map-append, reverse-append, reverse-reverse, reverse_aux}
use unix_notis.Prelude.{
  Bool-cases, Eq, List, Text, [], ap, arith, drop, inl, inr, length, length-append, length-map,
  refl, reverse, suc, sym, take, ℕ, ◌&&◌, ◌++◌, ◌+◌, ◌-◌, map, subst, nat_eq, ◌==◌, ◌∙◌, ◌∷◌, ◌≡◌,
}
use unix_notis.Center.{
  GroupRange, RowKey, Rows, common_front, common_prefix_suffix, splice, splice_changed, row_key_eq,
}
use unix_notis.Center.Blocks.{drop_one, splice_between, take_front}

cons_inj : {A : Type 0} {x y : A} {xs ys : List A} → (x ∷ xs) ≡ (y ∷ ys) → (x ≡ y) × (xs ≡ ys)
cons_inj h = (cc h, cc h)

length-reverse_aux :
    {A : Type 0} (xs acc : List A) → length (reverse_aux xs acc) ≡ length xs + length acc
length-reverse_aux [] acc = omega arith
length-reverse_aux (x ∷ xs) acc = omega (arith, length-reverse_aux xs (x ∷ acc))

length_zero : {A : Type 0} (xs : List A) → length xs ≡ 0 → xs ≡ []
length_zero [] h = refl
length_zero (x ∷ xs) h = absurd (omega (arith, h))

pair_path : {a b c d : ℕ} → a ≡ b → c ≡ d → ◌≡◌ {A = ℕ × ℕ} (a, c) (b, d)
pair_path p q = λ i. (p i, q i)

-- Neither list is empty and still starts like the other.
abbrev pub FirstDiffer : {A : Type 0} → List A → List A → Type 0
FirstDiffer [] ys = Unit {0}
FirstDiffer (x ∷ xs) [] = Unit {0}
FirstDiffer (x ∷ xs) (y ∷ ys) = ¬ (x ≡ y)

FirstDiffer-front :
    {A : Type 0} (xs ys zs : List A) → FirstDiffer (xs ++ zs) (ys ++ zs) → FirstDiffer xs ys
FirstDiffer-front [] ys zs h = tt
FirstDiffer-front (x ∷ xs) [] zs h = tt
FirstDiffer-front (x ∷ xs) (y ∷ ys) zs h = h

map_split :
    {A B : Type 0} (f : A → B) (xs : List A) (a b : List B)
    → map f xs ≡ a ++ b
    → (x : List A) × (y : List A) × (xs ≡ x ++ y) × (map f x ≡ a) × (map f y ≡ b)
map_split f xs [] b h = ([], xs, refl, refl, h)
map_split f [] (z ∷ a) b h = absurd (cc h)
map_split f (w ∷ xs) (z ∷ a) b h =
    let (head, tail) = cons_inj h in
    let (x, y, p, q, r) = map_split f xs a b tail in (w ∷ x, y, ap (λ l. w ∷ l) p, cc (head, q), r)

map_split_middle :
    {A B : Type 0} (f : A → B) (xs : List A) (a b c : List B)
    → map f xs ≡ a ++ (b ++ c)
    → (x : List A) × (y : List A) × (z : List A) × (xs ≡ x ++ (y ++ z))
      × (map f x ≡ a)
      × (map f y ≡ b)
      × (map f z ≡ c)
map_split_middle f xs a b c h =
    let (x, r, p, q, g) = map_split f xs a (b ++ c) h in
    let (y, z, p', q', g') = map_split f r b c g in (x, y, z, p ∙ ap (λ l. x ++ l) p', q, q', g')

length-keys_of :
    {A B : Type 0} (f : A → B) (xs : List A) (zs : List B) → map f xs ≡ zs → length zs ≡ length xs
length-keys_of f xs zs h = ap length (sym h) ∙ length-map f xs

module _ {A : Type 0} ⦃e : Eq A⦄ where
  -- What two lists share at the front, and the two rests.
  common_front-split :
      (xs ys : List A)
      → (s : List A) × (a : List A) × (b : List A) × (xs ≡ s ++ a)
        × (ys ≡ s ++ b)
        × (length s ≡ common_front xs ys)
        × FirstDiffer a b
  unfolding common_front
  common_front-split [] ys = ([], [], ys, refl, refl, refl, tt)
  common_front-split (x ∷ xs) [] = ([], x ∷ xs, [], refl, refl, refl, tt)
  common_front-split (x ∷ xs) (y ∷ ys) = elim (Bool-cases (e.beq x y)) [
    | inl h ↦
        let (s, a, b, p, q, r, n) = common_front-split xs ys in
        let same = (e.beq_iff x y).0 h in
        (x ∷ s, a, b, ap (λ t. x ∷ t) p, cc (same, q), rw h (ap suc r), n)
    | inr h ↦ ([], x ∷ xs, y ∷ ys, refl, refl, rw h refl, λ g. cc ((e.beq_iff x y).1 g, h))
  ]

  back_split : (xs s a : List A) → reverse xs ≡ s ++ a → xs ≡ reverse a ++ reverse s
  back_split xs s a h = sym (reverse-reverse xs) ∙ ap reverse h ∙ reverse-append s a

  -- Both lists: what they share before and after, and the middle of each.
  middle :
      (current next : List A)
      → (before : List A) × (gone : List A) × (come : List A) × (after : List A) × (current
          ≡ before ++ (gone ++ after))
        × (next ≡ before ++ (come ++ after))
        × (common_prefix_suffix current next ≡ (length before, length after))
        × FirstDiffer gone come
        × FirstDiffer (reverse gone) (reverse come)
  unfolding common_prefix_suffix
  middle current next =
      let (s, a, b, p, q, r, n) = common_front-split current next in
      let da : drop (common_front current next) current ≡ a =
        ap (λ n. drop n current) (sym r) ∙ ap (λ l. drop (length s) l) p ∙ drop_one s a in
      let db : drop (common_front current next) next ≡ b =
        ap (λ n. drop n next) (sym r) ∙ ap (λ l. drop (length s) l) q ∙ drop_one s b in
      let (t, c, d, p', q', r', n') = common_front-split (reverse a) (reverse b) in
      (
        s,
        reverse c,
        reverse d,
        reverse t,
        p ∙ ap (λ k. s ++ k) (back_split a t c p'),
        q ∙ ap (λ k. s ++ k) (back_split b t d q'),
        pair_path (sym r) (
            ap (λ k. common_front (reverse k) (reverse (drop (common_front current next) next))) da
            ∙ ap (λ k. common_front (reverse a) (reverse k)) db
            ∙ sym r'
            ∙ omega (arith, length-reverse_aux t [])),
        FirstDiffer-front (reverse c) (reverse d) (reverse t) (
            subst (λ l. FirstDiffer l (reverse d ++ reverse t)) (back_split a t c p')
              (subst (λ l. FirstDiffer a l) (back_split b t d q') n)),
        subst (λ l. FirstDiffer l (reverse (reverse d))) (sym (reverse-reverse c))
            (subst (λ l. FirstDiffer c l) (sym (reverse-reverse d)) n'),
      )

module _ {I : Type 0} where
  -- One stretch of the store gives way to a stretch of the new rows. The rows around it have the keys
  -- of the new rows around theirs and stay; neither on the first nor on the last of the stretch could
  -- one more of them stay.
  pub record Replaced (key_of : I → RowKey) (store items result : List I) : Type 0 where
    pub before : List I
    pub gone : List I
    pub after : List I
    pub front : List I
    pub come : List I
    pub back : List I
    pub was : store ≡ before ++ (gone ++ after)
    pub wanted : items ≡ front ++ (come ++ back)
    pub now : result ≡ before ++ (come ++ after)
    pub same_front : map key_of before ≡ map key_of front
    pub same_back : map key_of after ≡ map key_of back
    pub first_differ : FirstDiffer (map key_of gone) (map key_of come)
    pub last_differ : FirstDiffer (reverse (map key_of gone)) (reverse (map key_of come))

  -- What the splice does, with the shared parts given.
  spliced :
      (keys : List RowKey) (items : List I) (ranges : List (Text × GroupRange)) (rows : Rows I)
      (before gone after front come back : List I)
      → rows.store ≡ before ++ (gone ++ after)
      → items ≡ front ++ (come ++ back)
      → common_prefix_suffix rows.current_keys keys ≡ (length before, length after)
      → length rows.current_keys ≡ length before + (length gone + length after)
      → length keys ≡ length before + (length come + length after)
      → length front ≡ length before
      → (splice_changed keys items ranges rows).store ≡ before ++ (come ++ after)
  unfolding splice_changed
  spliced keys items ranges rows before gone after front come back p q sh cl nl fl =
      let front_is : (common_prefix_suffix rows.current_keys keys).0 ≡ length before =
        ap (λ (x : ℕ × ℕ). x.0) sh in
      let back_is : (common_prefix_suffix rows.current_keys keys).1 ≡ length after =
        ap (λ (x : ℕ × ℕ). x.1) sh in
      let cm : length rows.current_keys - (length before + length after) ≡ length gone =
        omega (arith, cl) in
      let nm : length keys - (length before + length after) ≡ length come = omega (arith, nl) in
      let mid : take (length come) (drop (length before) items) ≡ come =
        ap (λ n. take (length come) (drop n items)) (sym fl)
        ∙ ap (λ l. take (length come) (drop (length front) l)) q
        ∙ ap (λ l. take (length come) l) (drop_one front (come ++ back))
        ∙ take_front come back in
      rw (front_is, back_is, cm, nm)
        (elim (Bool-cases (length gone == 0 && length come == 0)) [
          | inl none_left ↦
              let g = length_zero gone (ground (arith, none_left)) in
              let c = length_zero come (ground (arith, none_left)) in
              rw none_left (p ∙ ap (λ l. before ++ (l ++ after)) (g ∙ sym c))
          | inr some_left ↦
              rw (some_left, mid)
                (ap (λ l. splice (length before) (length gone) come l) p
                  ∙ splice_between before gone come after)
        ])

  -- When the store's rows have the current keys, then after a rebuild they have the keys of the new
  -- rows, in their order, and the current keys are these again. Only one stretch of the store is
  -- touched: the objects before and after it, which have the keys of the new rows there, are the old
  -- ones, and the stretch begins and ends where the keys do differ.
  pub splice_changed_lem :
      (key_of : I → RowKey) (items : List I) (ranges : List (Text × GroupRange)) (rows : Rows I)
      → rows.current_keys ≡ map key_of rows.store
      → let rebuilt = splice_changed (map key_of items) items ranges rows in
        (map key_of rebuilt.store ≡ map key_of items)
        × (rebuilt.current_keys ≡ map key_of rebuilt.store)
        × Replaced key_of rows.store items rebuilt.store
  splice_changed_lem key_of items ranges rows h =
      let next = map key_of items in
      let (kb, kg, kc, ka, p, q, sh, first, last) = middle rows.current_keys next in
      let (before, gone, after, was, b, g, a) =
        map_split_middle key_of rows.store kb kg ka (sym h ∙ p) in
      let (front, come, back, wanted, f, c, t) = map_split_middle key_of items kb kc ka q in
      let lb = length-keys_of key_of before kb b in
      let la = length-keys_of key_of after ka a in
      let lg = length-keys_of key_of gone kg g in
      let lc = length-keys_of key_of come kc c in
      let lf = length-keys_of key_of front kb f in
      let cl : length rows.current_keys ≡ length before + (length gone + length after) =
        ap length p ∙ omega (arith, length-append kb (kg ++ ka), length-append kg ka, lb, la, lg) in
      let nl : length next ≡ length before + (length come + length after) =
        ap length q ∙ omega (arith, length-append kb (kc ++ ka), length-append kc ka, lb, la, lc) in
      let now =
        spliced next items ranges rows before gone after front come back was wanted
          (sh ∙ pair_path lb la) cl nl (sym lf ∙ lb) in
      let keys_now : map key_of (before ++ (come ++ after)) ≡ next =
        map-append key_of before (come ++ after)
        ∙ ap (λ l. map key_of before ++ l) (map-append key_of come after)
        ∙ rw (b, c, a) (sym q) in
      let result_keys = ap (map key_of) now ∙ keys_now in
      (
        result_keys,
        unfold splice_changed in (sym result_keys),
        record {
          before = before;
          gone = gone;
          after = after;
          front = front;
          come = come;
          back = back;
          was = was;
          wanted = wanted;
          now = now;
          same_front = b ∙ sym f;
          same_back = a ∙ sym t;
          first_differ = rw (g, c) first;
          last_differ = rw (g, c) last;
        },
      )
