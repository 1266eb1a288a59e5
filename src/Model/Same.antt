-- ===== src/Model/Same.antt =====
-- The derived equality of notification views (`PartialEq` on NotificationView, NotificationImage,
-- ImageData and Action): crates/unixnotis-core/src/model.
use unix_notis.Prelude.{
  ◌≡◌, refl, Bool, true, false, not, ◌&&◌, List, [], ◌∷◌, arith, ◌==◌, ==_iff, text_beq,
  text_beq_iff,
}
use unix_notis.Prelude.Int.{ℤ, pos, negsuc}
use unix_notis.Model.{Action, ImageData, NotificationImage, NotificationView}

unfoldable pub same_bool : Bool → Bool → Bool
same_bool true b = b
same_bool false b = not b

unfoldable pub same_int : ℤ → ℤ → Bool
same_int (pos a) (pos b) = a == b
same_int (pos a) (negsuc b) = false
same_int (negsuc a) (pos b) = false
same_int (negsuc a) (negsuc b) = a == b

unfoldable pub same_action : Action → Action → Bool
same_action a b = text_beq a.key b.key && text_beq a.label b.label

unfoldable pub same_actions : List Action → List Action → Bool
same_actions [] [] = true
same_actions [] (b ∷ bs) = false
same_actions (a ∷ as') [] = false
same_actions (a ∷ as') (b ∷ bs) = same_action a b && same_actions as' bs

unfoldable pub same_data : ImageData → ImageData → Bool
same_data a b =
    same_int a.width b.width
    && (same_int a.height b.height
        && (same_int a.rowstride b.rowstride
            && (same_bool a.has_alpha b.has_alpha
                && (same_int a.bits_per_sample b.bits_per_sample
                    && (same_int a.channels b.channels && text_beq a.bytes b.bytes)))))

unfoldable pub same_image : NotificationImage → NotificationImage → Bool
same_image a b =
    same_bool a.has_image_data b.has_image_data
    && (same_data a.image_data b.image_data
        && (text_beq a.image_path b.image_path && text_beq a.icon_name b.icon_name))

unfoldable pub same_view : NotificationView → NotificationView → Bool
same_view a b =
    a.id == b.id
    && (text_beq a.app_name b.app_name
        && (text_beq a.summary b.summary
            && (text_beq a.body b.body
                && (same_actions a.actions b.actions
                    && (a.urgency == b.urgency
                        && (same_bool a.is_transient b.is_transient
                            && same_image a.image b.image))))))

and_both : (a b : Bool) → (a && b) ≡ true → (a ≡ true) × (b ≡ true)
and_both a b h = (ground (arith, h), ground (arith, h))

same_bool-eq : (a b : Bool) → same_bool a b ≡ true → a ≡ b
unfolding same_bool
same_bool-eq true true h = refl
same_bool-eq true false h = cc
same_bool-eq false true h = cc
same_bool-eq false false h = refl

same_int-eq : (a b : ℤ) → same_int a b ≡ true → a ≡ b
unfolding same_int
same_int-eq (pos a) (pos b) h = cc ((==_iff a b).0 h)
same_int-eq (pos a) (negsuc b) h = cc
same_int-eq (negsuc a) (pos b) h = cc
same_int-eq (negsuc a) (negsuc b) h = cc ((==_iff a b).0 h)

same_action-eq : (a b : Action) → same_action a b ≡ true → a ≡ b
unfolding same_action
same_action-eq a b h =
    let (k, l) = and_both (text_beq a.key b.key) (text_beq a.label b.label) h in
    cc ((text_beq_iff a.key b.key).0 k, (text_beq_iff a.label b.label).0 l)

same_actions-eq : (as' bs : List Action) → same_actions as' bs ≡ true → as' ≡ bs
unfolding same_actions
same_actions-eq [] [] h = refl
same_actions-eq [] (b ∷ bs) h = cc
same_actions-eq (a ∷ as') [] h = cc
same_actions-eq (a ∷ as') (b ∷ bs) h =
    let (first, rest) = and_both (same_action a b) (same_actions as' bs) h in
    cc (same_action-eq a b first, same_actions-eq as' bs rest)

same_data-eq : (a b : ImageData) → same_data a b ≡ true → a ≡ b
unfolding same_data
same_data-eq a b h =
    let (w, h1) = and_both (same_int a.width b.width) _ h in
    let (e, h2) = and_both (same_int a.height b.height) _ h1 in
    let (r, h3) = and_both (same_int a.rowstride b.rowstride) _ h2 in
    let (l, h4) = and_both (same_bool a.has_alpha b.has_alpha) _ h3 in
    let (s, h5) = and_both (same_int a.bits_per_sample b.bits_per_sample) _ h4 in
    let (c, d) = and_both (same_int a.channels b.channels) _ h5 in
    cc (
      same_int-eq a.width b.width w,
      same_int-eq a.height b.height e,
      same_int-eq a.rowstride b.rowstride r,
      same_bool-eq a.has_alpha b.has_alpha l,
      same_int-eq a.bits_per_sample b.bits_per_sample s,
      same_int-eq a.channels b.channels c,
      (text_beq_iff a.bytes b.bytes).0 d,
    )

same_image-eq : (a b : NotificationImage) → same_image a b ≡ true → a ≡ b
unfolding same_image
same_image-eq a b h =
    let (i, h1) = and_both (same_bool a.has_image_data b.has_image_data) _ h in
    let (d, h2) = and_both (same_data a.image_data b.image_data) _ h1 in
    let (p, n) = and_both (text_beq a.image_path b.image_path) _ h2 in
    cc (
      same_bool-eq a.has_image_data b.has_image_data i,
      same_data-eq a.image_data b.image_data d,
      (text_beq_iff a.image_path b.image_path).0 p,
      (text_beq_iff a.icon_name b.icon_name).0 n,
    )

pub same_view-eq : (a b : NotificationView) → same_view a b ≡ true → a ≡ b
unfolding same_view
same_view-eq a b h =
    let (i, h1) = and_both (a.id == b.id) _ h in
    let (n, h2) = and_both (text_beq a.app_name b.app_name) _ h1 in
    let (s, h3) = and_both (text_beq a.summary b.summary) _ h2 in
    let (t, h4) = and_both (text_beq a.body b.body) _ h3 in
    let (c, h5) = and_both (same_actions a.actions b.actions) _ h4 in
    let (u, h6) = and_both (a.urgency == b.urgency) _ h5 in
    let (r, m) = and_both (same_bool a.is_transient b.is_transient) _ h6 in
    cc (
      (==_iff a.id b.id).0 i,
      (text_beq_iff a.app_name b.app_name).0 n,
      (text_beq_iff a.summary b.summary).0 s,
      (text_beq_iff a.body b.body).0 t,
      same_actions-eq a.actions b.actions c,
      (==_iff a.urgency b.urgency).0 u,
      same_bool-eq a.is_transient b.is_transient r,
      same_image-eq a.image b.image m,
    )
