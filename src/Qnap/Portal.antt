-- ===== src/Qnap/Portal.antt =====
-- internal/driver/qnap/node.go: portals as "host:port".
use nomad_csi_driver.Base.{
  nat_eq, Text, Bool, true, false, ◌&&◌, ◌||◌, not, List, [], ◌∷◌, ◌++◌, codes, eqb, contains,
  text_eq, ◌==◌, if◌then◌else◌,
}
use nomad_csi_driver.Base.Map.{Map, insert, has}
use nomad_csi_driver.Go.Trim.{trim_space}

-- What may follow the colon of `net.SplitHostPort`: no colon and no bracket.
is_port : Text → Bool
is_port [] = true
is_port (c ∷ s) = not (eqb c b':' || eqb c b'[' || eqb c b']') && is_port s

colon_port : Text → Bool
unfolding is_port
colon_port [] = false
colon_port (c ∷ s) = eqb c b':' && is_port s

-- After an opening bracket.
bracketed : Text → Bool
unfolding colon_port
bracketed [] = false
bracketed (c ∷ s) =
    let rest = bracketed s in
    if eqb c b']' then colon_port s else if eqb c b'[' then false else rest

unbracketed : Text → Bool
unfolding is_port
unbracketed [] = false
unbracketed (c ∷ s) =
    let rest = unbracketed s in
    if eqb c b':' then is_port s else if eqb c b'[' || eqb c b']' then false else rest

-- `net.SplitHostPort` answers without an error.
unfoldable pub splits_host_port : Text → Bool
unfolding bracketed unbracketed
splits_host_port [] = false
splits_host_port (c ∷ s) = if eqb c b'[' then bracketed s else unbracketed (c ∷ s)

-- `net.JoinHostPort`: a host with a colon is put in brackets.
unfoldable pub join_host_port : Text → Text → Text
join_host_port host port =
    if contains host b':' then b'[' ∷ host ++ b']' ∷ b':' ∷ port else host ++ b':' ∷ port

unfoldable pub normalize_portal : Text → Text
unfolding splits_host_port join_host_port
normalize_portal p =
    let t = trim_space p in
    if t == [] then [] else if splits_host_port t then t else join_host_port t (codes "3260")

-- `ourPortals`: the configured portals as a set.
unfoldable pub our_portals : List Text → Map Text (Unit {0})
unfolding normalize_portal
our_portals [] = []
our_portals (p ∷ ps) =
    let rest = our_portals ps in
    if normalize_portal p == [] then rest else insert (normalize_portal p) tt rest

abbrev is_none_configured : Map Text (Unit {0}) → Bool
is_none_configured [] = true
is_none_configured (p ∷ ps) = false

unfoldable pub portal_owned : Text → Map Text (Unit {0}) → Bool
unfolding normalize_portal
portal_owned portal ours = is_none_configured ours || has (normalize_portal portal) ours
