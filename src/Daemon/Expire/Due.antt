-- ===== src/Daemon/Expire/Due.antt =====
-- What one popped item does.
use unix_notis.Prelude.{
  ◌↔◌, nat_eq, ℕ, ◌≤◌, ◌≡◌, refl, sym, ap, ◌∙◌, ◌⊎◌, inl, inr, Bool, true, false, ◌&&◌, ◌||◌,
  Option, none, some, List, [], ◌∷◌, arith, ltb, ◌==◌, ==_iff, Bool-cases, if◌then◌else◌,
}
use unix_notis.Prelude.Maps.{elem, lookup, remove, lookup-remove}
use unix_notis.Model.Control.{expired}
use unix_notis.Store.{NotificationStore}
use unix_notis.Store.Lifecycle.{close, expiration_for}
use unix_notis.Store.Lifecycle.Close.{close_lem}
use unix_notis.Daemon.Expire.{ExpirationItem, is_deadline, fire, fire_due}
use unix_notis.Daemon.Expire.Queue.{Ordered, has_item}

is_deadline_iff : (d : ℕ) (o : Option ℕ) → (is_deadline d o ≡ true) ↔ (o ≡ some d)
unfolding is_deadline
is_deadline_iff d none = (λ h. cc, λ h. cc)
is_deadline_iff d (some e) =
    (λ h. ap some ((==_iff e d).0 h), λ h. (==_iff e d).1 (ground (arith, h)))

pub has_item-le :
    (k d i e : ℕ) (heap : List ExpirationItem)
    → Ordered ((i, e) ∷ heap)
    → has_item k d ((i, e) ∷ heap) ≡ true
    → e ≤ d
unfolding has_item
has_item-le k d i e [] o h = ground (arith, h)
has_item-le k d i e ((j, f) ∷ heap) o h = ground (arith, h, o.0, has_item-le k d j f heap o.1)

pub Ordered-tail :
    (item : ExpirationItem) (heap : List ExpirationItem) → Ordered (item ∷ heap) → Ordered heap
Ordered-tail item [] o = tt
Ordered-tail item (j ∷ heap) o = o.1

apart :
    (id e k d : ℕ) (scheduled : List (ℕ × ℕ))
    → is_deadline e (lookup id scheduled) ≡ false
    → lookup k scheduled ≡ some d
    → (id == k && e == d) ≡ false
apart id e k d scheduled stale h = elim (Bool-cases (id == k && e == d)) [
  | inr other ↦ other
  | inl same ↦
      let id_k = (==_iff id k).0 (ground (arith, same)) in
      let e_d = (==_iff e d).0 (ground (arith, same)) in
      cc (stale, (is_deadline_iff e (lookup id scheduled)).1 (cc (h, id_k, e_d)))
]

removed :
    (id e k d : ℕ) (scheduled : List (ℕ × ℕ))
    → is_deadline e (lookup id scheduled) ≡ true
    → lookup k (remove id scheduled) ≡ some d
    → (lookup k scheduled ≡ some d) × ((id == k && e == d) ≡ false)
removed id e k d scheduled current h = (
  ground (arith, h, lookup-remove id k scheduled),
  ground (arith, h, lookup-remove id k scheduled),
)

some_inj : {a b : ℕ} → some a ≡ some b → a ≡ b
some_inj h = cc h

left :
    (id e k d : ℕ) (scheduled : List (ℕ × ℕ))
    → is_deadline e (lookup id scheduled) ≡ true
    → lookup k scheduled ≡ some d
    → (id == k && e == d) ≡ false
    → lookup k (remove id scheduled) ≡ some d
left id e k d scheduled current h other = elim (Bool-cases (id == k)) [
  | inl same ↦
      let id_k = (==_iff id k).0 same in
      let at_id = (is_deadline_iff e (lookup id scheduled)).0 current in
      let e_d : e ≡ d = some_inj (sym at_id ∙ ap (λ i. lookup i scheduled) id_k ∙ h) in
      let hit : (id == k && e == d) ≡ true = ground (arith, same, e_d) in cc (other, hit)
  | inr differs ↦ lookup-remove id k scheduled ∙ rw differs h
]

pub elem-closed :
    (k id : ℕ) (closed : Bool) (ids : List ℕ)
    → elem k (if closed then id ∷ ids else ids) ≡ ((closed && id == k) || elem k ids)
unfolding elem
elem-closed k id true ids = refl
elem-closed k id false ids = refl

module _ {H : Type 0} where
  -- The three ways of a popped item.
  fire-stale :
      (id e : ℕ) (scheduled : List (ℕ × ℕ)) (s : NotificationStore H)
      → is_deadline e (lookup id scheduled) ≡ false
      → fire (id, e) scheduled s ≡ (scheduled, s, false)
  unfolding fire
  fire-stale id e scheduled s h = rw h refl

  fire-due :
      (id e : ℕ) (scheduled : List (ℕ × ℕ)) (s : NotificationStore H)
      → is_deadline e (lookup id scheduled) ≡ true
      → is_deadline e (expiration_for s id) ≡ true
      → fire (id, e) scheduled s ≡ (remove id scheduled, (close s id expired).0, true)
  unfolding fire
  fire-due id e scheduled s h g = rw h (rw g refl)

  fire-gone :
      (id e : ℕ) (scheduled : List (ℕ × ℕ)) (s : NotificationStore H)
      → is_deadline e (lookup id scheduled) ≡ true
      → is_deadline e (expiration_for s id) ≡ false
      → fire (id, e) scheduled s ≡ (remove id scheduled, s, false)
  unfolding fire
  fire-gone id e scheduled s h g = rw h (rw g refl)

  expiration_for-close :
      (s : NotificationStore H) (id k : ℕ)
      → expiration_for (close s id expired).0 k ≡ (if id == k then none else expiration_for s k)
  unfolding expiration_for
  expiration_for-close s id k =
      ap (lookup k) (close_lem s id expired).2 ∙ lookup-remove id k s.expirations

  -- What one item does to the timers and the schedule, and that what it closes was due.
  pub record Fired (id e : ℕ) (scheduled after : List (ℕ × ℕ)) (s t : NotificationStore H)
      (closed : Bool) : Type 0 where
    -- The schedules after it were there before, and are not this item's.
    pub remaining :
        (k d : ℕ)
        → lookup k after ≡ some d
        → (lookup k scheduled ≡ some d) × ((id == k && e == d) ≡ false)
    -- A timer is as before, or this item's notification is closed.
    pub timer :
        (k : ℕ)
        → (expiration_for t k ≡ expiration_for s k)
          ⊎ ((k ≡ id) × (closed ≡ true) × (expiration_for t k ≡ none))
    -- The other schedules stay.
    pub kept :
        (k d : ℕ)
        → lookup k scheduled ≡ some d
        → (id == k && e == d) ≡ false
        → lookup k after ≡ some d
    -- At most this item's notification leaves the active list.
    pub active :
        (k : ℕ) → lookup k t.active ≡ (if closed && id == k then none else lookup k s.active)
    pub was_due : closed ≡ true → expiration_for s id ≡ some e
    pub was_scheduled : closed ≡ true → lookup id scheduled ≡ some e
    pub complete : lookup id scheduled ≡ some e → expiration_for s id ≡ some e → closed ≡ true

  pub fire-Fired :
      (id e : ℕ) (scheduled : List (ℕ × ℕ)) (s : NotificationStore H)
      → let (after, t, closed) = fire (id, e) scheduled s in Fired id e scheduled after s t closed
  fire-Fired id e scheduled s = elim (Bool-cases (is_deadline e (lookup id scheduled))) [
    | inr stale ↦ rw (fire-stale id e scheduled s stale) (record {
      remaining = λ k d h. (h, apart id e k d scheduled stale h);
      timer = λ k. inl refl;
      kept = λ k d h other. h;
      active = λ k. refl;
      was_due = λ h. cc;
      was_scheduled = λ h. cc;
      complete = λ h g. cc ((is_deadline_iff e (lookup id scheduled)).1 h, stale);
    })
    | inl current ↦ elim (Bool-cases (is_deadline e (expiration_for s id))) [
      | inl due ↦ rw (fire-due id e scheduled s current due) (record {
        remaining = λ k d h. removed id e k d scheduled current h;
        timer = λ k. elim (Bool-cases (id == k)) [
          | inl same ↦
              inr (sym ((==_iff id k).0 same), refl, expiration_for-close s id k ∙ rw same refl)
          | inr other ↦ inl (expiration_for-close s id k ∙ rw other refl)
        ];
        kept = λ k d h other. left id e k d scheduled current h other;
        active = λ k. ap (lookup k) (close_lem s id expired).1 ∙ lookup-remove id k s.active;
        was_due = λ h. (is_deadline_iff e (expiration_for s id)).0 due;
        was_scheduled = λ h. (is_deadline_iff e (lookup id scheduled)).0 current;
        complete = λ h g. refl;
      })
      | inr gone ↦ rw (fire-gone id e scheduled s current gone) (record {
        remaining = λ k d h. removed id e k d scheduled current h;
        timer = λ k. inl refl;
        kept = λ k d h other. left id e k d scheduled current h other;
        active = λ k. refl;
        was_due = λ h. cc;
        was_scheduled = λ h. cc;
        complete = λ h g. cc ((is_deadline_iff e (expiration_for s id)).1 g, gone);
      })
    ]
  ]

  pub fire_due-stop :
      (now id e : ℕ) (heap : List ExpirationItem) (scheduled : List (ℕ × ℕ))
      (s : NotificationStore H)
      → ltb now e ≡ true
      → fire_due now ((id, e) ∷ heap) scheduled s
        ≡ (record { heap = (id, e) ∷ heap; scheduled = scheduled }, s, [])
  unfolding fire_due
  fire_due-stop now id e heap scheduled s h = rw h refl

  pub fire_due-go :
      (now id e : ℕ) (heap : List ExpirationItem) (scheduled : List (ℕ × ℕ))
      (s : NotificationStore H)
      → ltb now e ≡ false
      → let (after, t, closed) = fire (id, e) scheduled s in
        let (q, u, ids) = fire_due now heap after t in
        fire_due now ((id, e) ∷ heap) scheduled s ≡ (q, u, if closed then id ∷ ids else ids)
  unfolding fire_due
  fire_due-go now id e heap scheduled s h = rw h refl
