-- ===== src/Rules/Effects.antt =====
-- What the configured rules do to a notification.
use unix_notis.Prelude.{
  ◌≡◌, refl, ◌∙◌, Bool, true, false, Option, none, some, List, [], ◌∷◌, ◌++◌, arith, if◌then◌else◌,
}
use unix_notis.Prelude.Int.{ℤ, ◌≤ℤ◌, pos, negsuc}
use unix_notis.Model.{Notification}
use unix_notis.Config.{RuleConfig}
use unix_notis.Rules.{clamped, rule_matches, apply_rule, apply_rules, clamp_i32, i32_min, i32_max}

-- The fields that no rule may touch: content, images, hints and the sender's identity.
pub record SameOrigin {H : Type 0} (n m : Notification H) : Type 0 where
  pub id : n.id ≡ m.id
  pub app_name : n.app_name ≡ m.app_name
  pub summary : n.summary ≡ m.summary
  pub body : n.body ≡ m.body
  pub actions : n.actions ≡ m.actions
  pub hints : n.hints ≡ m.hints
  pub category : n.category ≡ m.category
  pub image : n.image ≡ m.image
  pub sender_name : n.sender_name ≡ m.sender_name
  pub sender_pid : n.sender_pid ≡ m.sender_pid
  pub sender_start_time : n.sender_start_time ≡ m.sender_start_time

abbrev pub InI32 : ℤ → Type 0
InI32 t = (i32_min ≤ℤ t) × (t ≤ℤ i32_max)

clamp_i32-InI32 : (t : ℤ) → InI32 (clamp_i32 t)
unfolding clamp_i32
clamp_i32-InI32 (pos n) = ground arith
clamp_i32-InI32 (negsuc n) = ground arith

module _ {H : Type 0} where
  SameOrigin-trans : {n m o : Notification H} → SameOrigin n m → SameOrigin m o → SameOrigin n o
  SameOrigin-trans a b = record {
    id = a.id ∙ b.id;
    app_name = a.app_name ∙ b.app_name;
    summary = a.summary ∙ b.summary;
    body = a.body ∙ b.body;
    actions = a.actions ∙ b.actions;
    hints = a.hints ∙ b.hints;
    category = a.category ∙ b.category;
    image = a.image ∙ b.image;
    sender_name = a.sender_name ∙ b.sender_name;
    sender_pid = a.sender_pid ∙ b.sender_pid;
    sender_start_time = a.sender_start_time ∙ b.sender_start_time;
  }

  SameOrigin-refl : (n : Notification H) → SameOrigin n n
  SameOrigin-refl n = ground arith

  apply_one-SameOrigin :
      (b : Bool) (rule : RuleConfig) (n : Notification H)
      → SameOrigin (if b then apply_rule rule n else n) n
  unfolding apply_rule
  apply_one-SameOrigin true rule n = ground arith
  apply_one-SameOrigin false rule n = SameOrigin-refl n

  -- Whatever the rules, a notification keeps its content and its sender: ownership checks are not
  -- affected by configuration.
  pub apply_rules-SameOrigin :
      (rules : List RuleConfig) (n : Notification H) → SameOrigin (apply_rules rules n) n
  unfolding apply_rules
  apply_rules-SameOrigin [] n = SameOrigin-refl n
  apply_rules-SameOrigin (rule ∷ rules) n =
      SameOrigin-trans (apply_rules-SameOrigin rules _)
        (apply_one-SameOrigin (rule_matches rule n) rule n)

  apply_one-InI32 :
      (b : Bool) (rule : RuleConfig) (n : Notification H)
      → InI32 n.expire_timeout
      → InI32 (if b then apply_rule rule n else n).expire_timeout
  unfolding apply_rule
  apply_one-InI32 false rule n h = h
  apply_one-InI32 true rule n h = clamped-InI32 rule.expire_timeout_ms
    where
      clamped-InI32 : (ms : Option ℤ) → InI32 (clamped ms n.expire_timeout)
      clamped-InI32 none = h
      clamped-InI32 (some t) = clamp_i32-InI32 t

  -- Rules keep the timeout within `i32`, for any configured 64-bit value.
  pub apply_rules-InI32 :
      (rules : List RuleConfig) (n : Notification H)
      → InI32 n.expire_timeout
      → InI32 (apply_rules rules n).expire_timeout
  unfolding apply_rules
  apply_rules-InI32 [] n h = h
  apply_rules-InI32 (rule ∷ rules) n h =
      apply_rules-InI32 rules _ (apply_one-InI32 (rule_matches rule n) rule n h)

  -- Rules apply in order: the last one sees, and may override, what the rules before it made.
  pub apply_rules-snoc :
      (rules : List RuleConfig) (last : RuleConfig) (n : Notification H)
      → let before = apply_rules rules n in
        apply_rules (rules ++ last ∷ []) n
        ≡ (if rule_matches last before then apply_rule last before else before)
  unfolding apply_rules
  apply_rules-snoc [] last n = refl
  apply_rules-snoc (rule ∷ rules) last n = apply_rules-snoc rules last _
