-- ===== src/Skills/Validation.antt =====
-- From the validation of a candidate to its promotion, in src/skills/skill-lifecycle.ts.
use mathlib.Core.Path.{subst}
use claude_powerplant.Prelude.{
  ◌≡◌, refl, sym, ap, ◌∙◌, inl, inr, String, ◌==◌, eq_iff, true, false, has, inherited_names, none,
  some, List, [], ◌∷◌, ◌++◌, get, put, get-put, get-put_same, is_some, arith, Option-cases,
  if◌then◌else◌,
}
use claude_powerplant.Skills.{
  Registry, SkillManifest, SkillAuditEvent, evaluated, Node, file, Entries, get_node, put_node,
  SkillStore, Host,
}
use claude_powerplant.Skills.Hash.{
  join_lines, hash_lines, compute_skill_content_hash, hash-put_manifest,
}
use claude_powerplant.Skills.Lifecycle.{
  Outcome, success, Validated, Promoted, load_registry, read_text, read_candidate_manifest,
  bind_hash, validate_skill, bind_version, promote_skill, next_version, is_inherited,
}

get_node-put :
    (k j : String) (n : Node) (es : Entries)
    → get_node (put_node k n es) j ≡ (if k == j then some n else get_node es j)
unfolding get_node put_node
get_node-put k j n Entries.nothing = refl
get_node-put k j n (Entries.entry i m es) =
    ground (arith, eq_iff k j, eq_iff i k, eq_iff i j, get_node-put k j n es)

-- What `validateSkill` found when it succeeds.
record Accepted (host : Host) (s : SkillStore) (id : String) (v : Validated) : Type 0 where
  root : Entries
  manifest : SkillManifest
  listed : get s.candidates id ≡ some root
  parsed : read_candidate_manifest host s id ≡ some manifest
  fresh : manifest.sha256 ≡ none

validate-Accepted :
    (host : Host) (now : String) (s : SkillStore) (id : String) (v : Validated)
    → (validate_skill host now s id).1 ≡ success v
    → Accepted host s id v
unfolding validate_skill
validate-Accepted host now s id v e = elim (Option-cases (get s.candidates id)) [
  | inl missing ↦ absurd (let e' = rw (missing, validate_skill) at e in cc e')
  | inr (root, listed) ↦ elim (Option-cases (read_candidate_manifest host s id)) [
    | inl bad ↦ absurd (let e' = rw (listed, bad, validate_skill) at e in cc e')
    | inr (manifest, parsed) ↦ record {
      root = root;
      manifest = manifest;
      listed = listed;
      parsed = parsed;
      fresh = ground arith;
    }
  ]
]

-- The manifest with the hash of a validation.
abbrev pub bound_manifest : SkillManifest → String → String → SkillManifest
bound_manifest m hash now = record m {
  sha256 = some hash;
  evaluation_passed = true;
  evaluation_at = some now;
}

-- JSON keeps a manifest that the schema takes: with a digest and a reading of the clock in it, it is
-- printed to a text that parses to it again.
pub record KeepsManifests (host : Host) (now : String) : Type 0 where
  pub printed :
      (content : String) (m : SkillManifest) (bytes : String)
      → host.parse_manifest content ≡ some m
      → host.parse_manifest (host.print_manifest (bound_manifest m (host.sha bytes) now))
        ≡ some (bound_manifest m (host.sha bytes) now)

-- Where a manifest that was read came from.
record Source (host : Host) (s : SkillStore) (id : String) (m : SkillManifest) : Type 0 where
  root : Entries
  content : String
  listed : get s.candidates id ≡ some root
  at : get_node root "manifest.json" ≡ some (file content)
  parsed : host.parse_manifest content ≡ some m

read_text-file :
    (root : Entries) (name content : String)
    → read_text root name ≡ some content
    → get_node root name ≡ some (file content)
unfolding read_text
read_text-file root name content e = ground arith

read_manifest-Source :
    (host : Host) (s : SkillStore) (id : String) (m : SkillManifest)
    → read_candidate_manifest host s id ≡ some m
    → Source host s id m
unfolding read_candidate_manifest
read_manifest-Source host s id m e = elim (Option-cases (get s.candidates id)) [
  | inl missing ↦ absurd (let e' = rw (missing, read_candidate_manifest) at e in cc e')
  | inr (root, listed) ↦ elim (Option-cases (read_text root "manifest.json")) [
    | inl bad ↦ absurd (let e' = rw (listed, bad, read_candidate_manifest) at e in cc e')
    | inr (content, there) ↦ record {
      root = root;
      content = content;
      listed = listed;
      at = read_text-file root "manifest.json" content there;
      parsed = rw (listed, there, read_candidate_manifest) at e;
    }
  ]
]

read_manifest-put :
    (host : Host) (s : SkillStore) (id text : String) (root : Entries) (log : List SkillAuditEvent)
    → read_candidate_manifest host
        (record s {
          candidates = put id (put_node "manifest.json" (file text) root) s.candidates;
          audit = log;
        })
        id
      ≡ host.parse_manifest text
unfolding read_candidate_manifest read_text
read_manifest-put host s id text root log = ground (
  arith,
  get-put id id (put_node "manifest.json" (file text) root) s.candidates,
  get_node-put "manifest.json" "manifest.json" (file text) root,
  eq_iff id id,
)

-- What `promoteSkill` answers for a candidate whose manifest carries a hash.
pub promote-bound :
    (host : Host) (now : String) (s : SkillStore) (id : String) (m : SkillManifest) (hash : String)
    → read_candidate_manifest host s id ≡ some m
    → m.sha256 ≡ some hash
    → is_inherited (load_registry s.registry_file) m.name ≡ false
    → promote_skill host now s id ≡ bind_version now s id m hash
unfolding promote_skill bind_version
promote-bound host now s id m hash parsed bound own = rw (parsed, bound, own, promote_skill) refl

-- No inherited name
pub not_inherited :
    (registry : Registry) (name : String)
    → has inherited_names name ≡ false
    → is_inherited registry name ≡ false
unfolding is_inherited
not_inherited registry name free = ground (arith, free)

validate-bound :
    (host : Host) (now : String) (s : SkillStore) (id : String) (v : Validated)
    (a : Accepted host s id v)
    → validate_skill host now s id ≡ bind_hash host now s id a.root a.manifest
unfolding validate_skill bind_hash
validate-bound host now s id v a = rw (a.listed, a.parsed, a.fresh, validate_skill) refl

-- What `promoteSkill` says of a candidate that was just validated.
abbrev promoted_as : SkillStore → String → Validated → Promoted
promoted_as s id v = record {
  name = v.name;
  version = next_version (get (load_registry s.registry_file) v.name);
  content_hash = v.content_hash;
  candidate_id = id;
}

-- The store after a validation: its snapshot has the hash, and promotion is open.
abbrev Ready : Host → String → SkillStore → String → Validated → SkillStore → Type 0
Ready host later s id v t =
    ((root : Entries) × (get t.candidates id ≡ some root)
      × (compute_skill_content_hash host.sha root ≡ v.content_hash))
    × ((promote_skill host later t id).1 ≡ success (promoted_as s id v))

printed-bound :
    (host : Host) (now : String) (content : String) (m : SkillManifest) (root : Entries)
    → KeepsManifests host now
    → host.parse_manifest content ≡ some m
    → host.parse_manifest
        (host.print_manifest (bound_manifest m (compute_skill_content_hash host.sha root) now))
      ≡ some (bound_manifest m (compute_skill_content_hash host.sha root) now)
unfolding compute_skill_content_hash hash_lines
printed-bound host now content m root keeps parsed =
    keeps.printed content m (join_lines (hash_lines host.sha root)) parsed

bind_version-reply :
    (now : String) (s : SkillStore) (id : String) (m : SkillManifest) (hash : String)
    → (bind_version now s id m hash).1
      ≡ success (record {
        name = m.name;
        version = next_version (get (load_registry s.registry_file) m.name);
        content_hash = hash;
        candidate_id = id;
      })
unfolding bind_version
bind_version-reply now s id m hash = refl

bind_hash-Ready :
    (host : Host) (now later : String) (s : SkillStore) (id : String) (v : Validated)
    → KeepsManifests host now
    → has inherited_names v.name ≡ false
    → (a : Accepted host s id v) → (bind_hash host now s id a.root a.manifest).1 ≡ success v
    → Ready host later s id v (bind_hash host now s id a.root a.manifest).0
unfolding bind_hash
bind_hash-Ready host now later s id v keeps free a e =
    let src = read_manifest-Source host s id a.manifest a.parsed in
    let same : src.root ≡ a.root = cc (src.listed, a.listed) in
    let m = bound_manifest a.manifest (compute_skill_content_hash host.sha a.root) now in
    let text = host.print_manifest m in
    let found : is_some (get_node a.root "manifest.json") ≡ true = rw (sym same, src.at) refl in
    let reply : v ≡ record {
      candidate_id = id;
      content_hash = compute_skill_content_hash host.sha a.root;
      name = a.manifest.name;
    } =
      cc e in
    let again = read_manifest-put host s id text a.root (
      s.audit
      ++ evaluated id a.manifest.name true none (compute_skill_content_hash host.sha a.root)
        ∷ []) in
    let read = again ∙ printed-bound host now src.content a.manifest a.root keeps src.parsed in
    let own = not_inherited (load_registry s.registry_file) a.manifest.name (rw reply at free) in
    rw reply (
      (
        put_node "manifest.json" (file text) a.root,
        get-put_same id (put_node "manifest.json" (file text) a.root) s.candidates,
        hash-put_manifest host.sha (file text) a.root found,
      ),
      ap (λ (r : SkillStore × Outcome Promoted). r.1)
            (promote-bound host later _ id m (compute_skill_content_hash host.sha a.root) read refl
              own)
          ∙ bind_version-reply later _ id m (compute_skill_content_hash host.sha a.root),
    )

-- A validated candidate whose name is no inherited one can be promoted at once, under the hash and the name of its validation, and
-- its snapshot, with the manifest as validation rewrote it, still has that hash.
pub validate_then_promote :
    (host : Host) (now later : String) (s : SkillStore) (id : String) (v : Validated)
    → KeepsManifests host now
    → has inherited_names v.name ≡ false
    → (validate_skill host now s id).1 ≡ success v
    → ((root : Entries) × (get (validate_skill host now s id).0.candidates id ≡ some root)
        × (compute_skill_content_hash host.sha root ≡ v.content_hash))
      × ((promote_skill host later (validate_skill host now s id).0 id).1
          ≡ success (record {
            name = v.name;
            version = next_version (get (load_registry s.registry_file) v.name);
            content_hash = v.content_hash;
            candidate_id = id;
          }))
validate_then_promote host now later s id v keeps free e =
    let a = validate-Accepted host now s id v e in
    let bound = validate-bound host now s id v a in
    let open_gate =
      bind_hash-Ready host now later s id v keeps free a
        (ap (λ (r : SkillStore × Outcome Validated). r.1) (sym bound) ∙ e) in
    subst (λ (r : SkillStore × Outcome Validated). Ready host later s id v r.0) (sym bound)
      open_gate
