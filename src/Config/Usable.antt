-- ===== src/Config/Usable.antt =====
-- internal/config/config.go: what ResolveStats gives.
use nomad_csi_driver.Base.Int.{ltb_ℤ}
use nomad_csi_driver.Base.{ℤ, pos, Text, true, ◌≡◌, refl, text_eq, Option, none, some, arith}
use nomad_csi_driver.Driver.Errors.{Result, ok, err, bind}
use nomad_csi_driver.Stats.Config.{
  FullConfig, with_defaults, positive_or, text_or, default_interval, default_statfs_timeout,
  default_walk_interval, default_walk_timeout, default_stale_after, default_max_failure_backoff,
  default_walk_workers, default_walk_buffer, default_aggregate_interval, default_query_token_header,
  default_namespace,
}
use nomad_csi_driver.Config.{StatsConfig, duration, over_zero, settle, resolve_stats}

bind-ok :
    {A B : Type 0} (r : Result A) (f : A → Result B) (b : B)
    → bind r f ≡ ok b
    → (a : A) × (r ≡ ok a) × (f a ≡ ok b)
bind-ok (ok a) f b e = (a, refl, e)
bind-ok (err x) f b e = absurd (ground arith)

ok-injective : {A : Type 0} (a b : A) → ok a ≡ ok b → a ≡ b
ok-injective a b e = ground arith

positive_or_idem :
    (d v : ℤ) → ltb_ℤ (pos 0) d ≡ true → positive_or d (positive_or d v) ≡ positive_or d v
positive_or_idem d v h = ground arith

text_or_idem : (d v : Text) → text_or d (text_or d v) ≡ text_or d v
text_or_idem d v = ground arith

module _ (parse : Text → Result ℤ) where
  duration-positive :
      (d r : ℤ) (v : Text)
      → ltb_ℤ (pos 0) d ≡ true
      → duration parse d v ≡ ok r
      → positive_or d r ≡ r
  unfolding duration over_zero
  duration-positive d r v h e = grind arith

  step :
      {B : Type 0} (d : ℤ) (v : Text) (f : ℤ → Result B) (b : B)
      → ltb_ℤ (pos 0) d ≡ true
      → bind (duration parse d v) f ≡ ok b
      → (a : ℤ) × (positive_or d a ≡ a) × (f a ≡ ok b)
  step d v f b h e =
      let (a, is, rest) = bind-ok (duration parse d v) f b e in
      (a, duration-positive d a v h is, rest)

settled :
    (c : StatsConfig) (a b d e f g h : ℤ)
    → positive_or default_interval a ≡ a
    → positive_or default_statfs_timeout b ≡ b
    → positive_or default_walk_interval d ≡ d
    → positive_or default_walk_timeout e ≡ e
    → positive_or default_stale_after f ≡ f
    → positive_or default_max_failure_backoff g ≡ g
    → positive_or default_aggregate_interval h ≡ h
    → with_defaults (settle c a b d e f g h) ≡ settle c a b d e f g h
unfolding with_defaults settle
settled c a b d e f g h pa pb pd pe pf pg ph =
    rw
      (
        pa,
        pb,
        pd,
        pe,
        pf,
        pg,
        ph,
        positive_or_idem default_walk_workers c.walk_workers refl,
        positive_or_idem default_walk_buffer c.walk_buffer refl,
        text_or_idem default_query_token_header c.query_token_header,
        text_or_idem default_namespace c.namespace,
      )
      refl

-- With the settings that ResolveStats answers, every cadence, limit and pool size is positive and the
-- names are not empty: withDefaults leaves the settings as they are.
pub with_defaults-resolve_stats :
    (parse : Text → Result ℤ) (c : Option StatsConfig) (s : FullConfig)
    → resolve_stats parse c ≡ ok s
    → with_defaults s ≡ s
unfolding resolve_stats with_defaults settle
with_defaults-resolve_stats parse none s e = ground arith
with_defaults-resolve_stats parse (some c) s e =
    let (a, pa, e1) = step parse default_interval c.interval _ s refl e in
    let (b, pb, e2) = step parse default_statfs_timeout c.statfs_timeout _ s refl e1 in
    let (d, pd, e3) = step parse default_walk_interval c.walk_interval _ s refl e2 in
    let (t, pt, e4) = step parse default_walk_timeout c.walk_timeout _ s refl e3 in
    let (f, pf, e5) = step parse default_stale_after c.stale_after _ s refl e4 in
    let (g, pg, e6) = step parse default_max_failure_backoff c.max_failure_backoff _ s refl e5 in
    let (h, ph, e7) = step parse default_aggregate_interval c.aggregate_interval _ s refl e6 in
    let is : settle c a b d t f g h ≡ s = ok-injective _ _ e7 in
    rw (← is) (settled c a b d t f g h pa pb pd pt pf pg ph)
