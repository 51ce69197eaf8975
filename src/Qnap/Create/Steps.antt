-- ===== src/Qnap/Create/Steps.antt =====
-- internal/driver/qnap/controller.go: the steps of a create, one rule for each.
use nomad_csi_driver.Base.{
  ℕ, ℤ, Text, Bool, true, false, ◌≡◌, List, ◌∷◌, Option, none, some, int_eq, text_eq,
}
use nomad_csi_driver.Driver.Errors.{Code, coded, Result, ok, err, fail}
use nomad_csi_driver.Driver.Types.{ContentSource}
use nomad_csi_driver.Qnap.Appliance.{Client, Event, History, Lun, Target}
use nomad_csi_driver.Qnap.Cache.{LunCache, lookup_by_name, target_for_lun}
use nomad_csi_driver.Qnap.Params.{QnapConfig, VolumeParams}
use nomad_csi_driver.Qnap.Session.{State}
use nomad_csi_driver.Qnap.Session.Keeps.{Keeps, Keeps-pure, Keeps-fail}
use nomad_csi_driver.Qnap.Create.Own.{made_lun, made_target}
use nomad_csi_driver.Qnap.Assemble.{
  fresh_by_clock, assemble_volume, warm, fetch_both, ensure_fresh, cache_is_fresh, fetch_all,
  store_refreshed,
}
use nomad_csi_driver.Qnap.Create.{
  finish_create, best_effort_delete_target, make_fresh, create_mapped, grow_to_requested, grow_body,
  find_existing_volume, lookup_found, existing_size, found_lun, existing_on, reuse,
}
use nomad_csi_driver.Qnap.Create.Calls
use nomad_csi_driver.Qnap.Create.Calls.{
  mapped-Keeps, attempt-Keeps, given_rules, Keeps-learn, if-Keeps, read_clock-Keeps,
}

module _ (cl : Client) (K : History → Type 0)
    (mono : (e : Event) (h : History) → K h → K (e ∷ h)) where
  abbrev Given : State → Type 0
  Given = Calls.Given cl K mono

  module _ (cfg : QnapConfig) where
    pub grow-Keeps :
        (i : ℤ) (n : ℕ)
        → ((h : History) → K h → made_lun i h ≡ true)
        → Keeps Given (grow_to_requested cl cfg i n)
    unfolding grow_to_requested grow_body
    grow-Keeps i n own = search (given_rules)

    pub fresh_by_clock-Keeps : (c : LunCache) (b : Bool) → Keeps Given (fresh_by_clock cl cfg c b)
    unfolding fresh_by_clock
    fresh_by_clock-Keeps c true = search (given_rules)
    fresh_by_clock-Keeps c false = search (given_rules)

    pub cache_is_fresh-Keeps : Keeps Given (cache_is_fresh cl cfg)
    unfolding cache_is_fresh
    cache_is_fresh-Keeps = record {
      at = λ s h. (fresh_by_clock-Keeps s.cache s.cache.loaded).at s h;
    }

    pub store_refreshed-Keeps :
        (lists : List Lun × List Target) (n : ℕ) → Keeps Given (store_refreshed cl cfg lists n)
    unfolding store_refreshed
    store_refreshed-Keeps lists n = record { at = λ s h. h }

    pub fetch_all-Keeps : (sess : ℕ) → Keeps Given (fetch_all cl cfg sess)
    unfolding fetch_all
    fetch_all-Keeps sess = search (given_rules)

    pub ensure_fresh-Keeps : Keeps Given (ensure_fresh cl cfg)
    unfolding ensure_fresh
    ensure_fresh-Keeps =
        search (given_rules, cache_is_fresh-Keeps, store_refreshed-Keeps, fetch_all-Keeps)

    pub warm-Keeps : (both : Lun × Target) → Keeps Given (warm cl cfg both)
    unfolding warm
    warm-Keeps both = record { at = λ s h. h }

    pub fetch_both-Keeps : (i t : ℤ) (sess : ℕ) → Keeps Given (fetch_both cl cfg i t sess)
    unfolding fetch_both
    fetch_both-Keeps i t sess = search (given_rules)

    pub assemble-Keeps :
        (src : Option ContentSource) (vp : VolumeParams) (i t : ℤ) (own : Bool) (n : ℕ)
        → Keeps Given (assemble_volume cl cfg src vp i t own n)
    unfolding assemble_volume
    assemble-Keeps src vp i t own n = search (given_rules, warm-Keeps, fetch_both-Keeps)

    pub existing_on-Keeps :
        (vp : VolumeParams) (name : Text) (want : ℕ) (lun : Lun) (t : Option Target)
        → Keeps Given (existing_on cl cfg vp name want lun t)
    unfolding existing_on
    existing_on-Keeps vp name want lun none = Keeps-fail _
    existing_on-Keeps vp name want lun (some t) = search (given_rules, assemble-Keeps)

    pub found_lun-Keeps :
        (vp : VolumeParams) (name : Text) (want : ℕ) (lun : Lun)
        → Keeps Given (found_lun cl cfg vp name want lun)
    unfolding found_lun
    found_lun-Keeps vp name want lun =
        if-Keeps cl K mono (existing_size lun.capacity_bytes want)
          (fail (coded Code.already_exists))
          (λ s. existing_on cl cfg vp name want lun (target_for_lun s.cache lun.index) s)
          (Keeps-fail _)
          (record {
            at = λ s h.
                (existing_on-Keeps vp name want lun (target_for_lun s.cache lun.index)).at s h;
          })

    pub reuse-Keeps :
        (vp : VolumeParams) (name : Text) (want : ℕ) (l : Option Lun)
        → Keeps Given (reuse cl cfg vp name want l)
    unfolding reuse
    reuse-Keeps vp name want none = Keeps-pure _
    reuse-Keeps vp name want (some lun) = found_lun-Keeps vp name want lun

    pub lookup_found-Keeps :
        (vp : VolumeParams) (name : Text) (want : ℕ)
        → Keeps Given (lookup_found cl cfg vp name want)
    unfolding lookup_found
    lookup_found-Keeps vp name want = record {
      at = λ s h. (reuse-Keeps vp name want (lookup_by_name s.cache name)).at s h;
    }

    pub find_existing-Keeps :
        (name : Text) (want : ℕ) (vp : VolumeParams)
        → Keeps Given (find_existing_volume cl cfg name want vp)
    unfolding find_existing_volume
    find_existing-Keeps name want vp = search (given_rules, ensure_fresh-Keeps, lookup_found-Keeps)

    pub make_fresh-Keeps :
        (vp : VolumeParams) (name : Text) (t : ℤ) (n : ℕ)
        → Keeps Given (make_fresh cl cfg vp name t n)
    unfolding make_fresh create_mapped
    make_fresh-Keeps vp name t n = search (given_rules)

    pub best_effort-Keeps :
        (i : ℤ)
        → ((h : History) → K h → made_target i h ≡ true)
        → Keeps Given (best_effort_delete_target cl cfg i)
    unfolding best_effort_delete_target
    best_effort-Keeps i own = search (given_rules)

    pub finish-Keeps :
        (src : Option ContentSource) (vp : VolumeParams) (n : ℕ) (t : ℤ) (own : Bool) (r : Result ℤ)
        → (own ≡ true → (h : History) → K h → made_target t h ≡ true)
        → Keeps Given (finish_create cl cfg src vp n t own r)
    unfolding finish_create
    finish-Keeps src vp n t own (ok lun) made = assemble-Keeps src vp lun t own n
    finish-Keeps src vp n t true (err e) made = search (given_rules, best_effort-Keeps, made)
    finish-Keeps src vp n t false (err e) made = search (given_rules)
