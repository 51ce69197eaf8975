-- ===== src/Qnap/Cache.antt =====
-- internal/driver/qnap/cache.go: the controller's index of LUNs and targets. A method whose lock is
-- held for its whole body is one step; `ensureFresh` runs as one handler sees it.
use nomad_csi_driver.Base.{
  ℕ, ◌-◌, ℤ, Text, Bool, true, false, ◌&&◌, List, [], ◌∷◌, Option, map, ltb, text_eq, int_eq, ◌==◌,
  if◌then◌else◌,
}
use nomad_csi_driver.Base.Map.{Map, lookup, insert, erase}
use nomad_csi_driver.Qnap.Appliance.{Lun, Target}

-- Instants are nanoseconds.
pub record LunCache : Type 0 where
  pub by_name : Map Text Lun
  pub lun_to_target : Map ℤ Target
  pub loaded : Bool
  pub last_refresh : ℕ
  pub ttl : ℕ

unfoldable pub new_lun_cache : ℕ → LunCache
new_lun_cache ttl = record {
  by_name = [];
  lun_to_target = [];
  loaded = false;
  last_refresh = 0;
  ttl = ttl;
}

-- The clock may run backwards: a difference below zero is less than the TTL, as 0 is here.
unfoldable pub is_fresh : LunCache → ℕ → Bool
is_fresh c now = c.loaded && ltb (now - c.last_refresh) c.ttl

unfoldable pub index_luns : List Lun → Map Text Lun → Map Text Lun
index_luns [] m = m
index_luns (l ∷ ls) m = index_luns ls (insert l.name l m)

unfoldable pub index_target : Target → List ℤ → Map ℤ Target → Map ℤ Target
index_target t [] m = m
index_target t (i ∷ is) m = index_target t is (insert i t m)

unfoldable pub index_targets : List Target → Map ℤ Target → Map ℤ Target
unfolding index_target
index_targets [] m = m
index_targets (t ∷ ts) m = index_targets ts (index_target t t.luns m)

-- What `ensureFresh` stores after a fetch.
unfoldable pub refreshed : LunCache → List Lun → List Target → ℕ → LunCache
unfolding index_luns index_targets
refreshed c luns targets now = record {
  by_name = index_luns luns [];
  lun_to_target = index_targets targets [];
  loaded = true;
  last_refresh = now;
  ttl = c.ttl;
}

unfoldable pub lookup_by_name : LunCache → Text → Option Lun
lookup_by_name c name = lookup name c.by_name

unfoldable pub target_for_lun : LunCache → ℤ → Option Target
target_for_lun c i = lookup i c.lun_to_target

unfoldable pub all_luns : LunCache → List Lun
all_luns c = map (λ e. e.1) c.by_name

unfoldable pub add_lun : LunCache → Lun → Target → LunCache
add_lun c l t = record c {
  by_name = insert l.name l c.by_name;
  lun_to_target = insert l.index t c.lun_to_target;
}

-- The loop over the names ends at the first LUN of that index.
drop_lun : ℤ → Map Text Lun → Map Text Lun
drop_lun i [] = []
drop_lun i ((name, l) ∷ m) = if l.index == i then m else (name, l) ∷ drop_lun i m

unfoldable pub remove_lun : LunCache → ℤ → LunCache
unfolding drop_lun
remove_lun c i = record c {
  by_name = drop_lun i c.by_name;
  lun_to_target = erase i c.lun_to_target;
}
