-- ===== src/Skills/Rendering.antt =====
-- Which skills src/skills/skill-envelope.ts renders as guidance.
use claude_powerplant.Prelude.{
  ◌≡◌, ◌≢◌, refl, sym, ◌∙◌, ◌↔◌, inl, inr, String, ◌==◌, eq_iff, false, not, Option, none, some, [],
  ◌∷◌, get, map, arith, Option-cases, All, if◌then◌else◌,
}
use claude_powerplant.Skills.{SkillRegistryRecord, Registry, Entries, SkillStore, Host}
use claude_powerplant.Skills.Hash.{compute_skill_content_hash, join_lines, hash_lines}
use claude_powerplant.Skills.Lifecycle.{load_registry, read_text, summary_of, list_skills}
use claude_powerplant.Skills.Envelope.{
  SkillEnvelope, envelope_text, find_skill, render_prompt_envelope,
}

-- Each record of the registry stands under its own name.
abbrev pub Named : Registry → Type 0
Named registry = All (λ (e : String × SkillRegistryRecord). e.1.name ≡ e.0) registry

find_skill-summary :
    (m : Registry) (name : String)
    → Named m
    → find_skill (map (λ (e : String × SkillRegistryRecord). summary_of e.1) m) name
      ≡ elim (get m name) [ none ↦ none | some r ↦ some (summary_of r) ]
unfolding find_skill get summary_of
find_skill-summary [] name n = refl
find_skill-summary ((j, r) ∷ m) name n =
    ground (arith, find_skill-summary m name n.1, eq_iff r.name name, eq_iff j name, n.0)

-- What a rendered skill has: an enabled record, and a snapshot with a guide whose content hash is
-- the one that was promoted.
pub record Renders (host : Host) (s : SkillStore) (name : String) (e : SkillEnvelope) : Type 0 where
  pub active : SkillRegistryRecord
  pub root : Entries
  pub guide : String
  pub registered : get (load_registry s.registry_file) name ≡ some active
  pub enabled : active.is_disabled ≡ false
  pub listed : get s.candidates active.candidate_id ≡ some root
  pub intact : compute_skill_content_hash host.sha root ≡ active.content_hash
  pub readable : read_text root "SKILL.md" ≡ some guide
  pub shown : e ≡ record {
    skill_name = name;
    version = active.active_version;
    content_hash = active.content_hash;
    text = envelope_text name (summary_of active) guide;
  }

find_skill-listed :
    (s : SkillStore) (name : String)
    → Named (load_registry s.registry_file)
    → find_skill (list_skills s) name ≡ elim (get (load_registry s.registry_file) name) [
      | none ↦ none
      | some r ↦ some (summary_of r)
    ]
unfolding list_skills
find_skill-listed s name n = find_skill-summary (load_registry s.registry_file) name n

-- The rendering of a registered skill.
abbrev rendered : Host → SkillStore → String → SkillRegistryRecord → Option SkillEnvelope
rendered host s name r = if r.is_disabled then none else elim (get s.candidates r.candidate_id) [
  | none ↦ none
  | some root ↦
      if not (compute_skill_content_hash host.sha root == r.content_hash)
      then none
      else elim (read_text root "SKILL.md") [
        | none ↦ none
        | some content ↦ some (record {
          skill_name = name;
          version = r.active_version;
          content_hash = r.content_hash;
          text = envelope_text name (summary_of r) content;
        })
      ]
]

render-rendered :
    (host : Host) (s : SkillStore) (name : String) (r : SkillRegistryRecord)
    → Named (load_registry s.registry_file)
    → get (load_registry s.registry_file) name ≡ some r
    → render_prompt_envelope host s name ≡ rendered host s name r
unfolding render_prompt_envelope summary_of
render-rendered host s name r n known =
    rw (find_skill-listed s name n, render_prompt_envelope) (rw known refl)

render-absent :
    (host : Host) (s : SkillStore) (name : String)
    → Named (load_registry s.registry_file)
    → get (load_registry s.registry_file) name ≡ none
    → render_prompt_envelope host s name ≡ none
unfolding render_prompt_envelope
render-absent host s name n gone =
    rw (find_skill-listed s name n, render_prompt_envelope) (rw gone refl)

rendered-Renders :
    (host : Host) (s : SkillStore) (name : String) (e : SkillEnvelope) (r : SkillRegistryRecord)
    → get (load_registry s.registry_file) name ≡ some r
    → rendered host s name r ≡ some e
    → Renders host s name e
rendered-Renders host s name e r known shown =
    elim (Option-cases (get s.candidates r.candidate_id)) [
      | inl missing ↦ absurd (ground arith)
      | inr (root, listed) ↦ elim (Option-cases (read_text root "SKILL.md")) [
        | inl unreadable ↦ absurd (ground arith)
        | inr (content, readable) ↦ record {
          active = r;
          root = root;
          guide = content;
          registered = known;
          enabled = ground arith;
          listed = listed;
          intact = ground (arith, eq_iff (compute_skill_content_hash host.sha root) r.content_hash);
          readable = readable;
          shown = ground arith;
        }
      ]
    ]

Renders-rendered :
    (host : Host) (s : SkillStore) (name : String) (e : SkillEnvelope)
    → (r : Renders host s name e) → rendered host s name r.active ≡ some e
Renders-rendered host s name e r = ground (
  arith,
  eq_iff (compute_skill_content_hash host.sha r.root) r.active.content_hash,
  r.enabled,
  r.listed,
  r.intact,
  r.readable,
  r.shown,
)

-- Over a registry whose records stand under their names, a skill is rendered exactly when it is
-- registered and enabled and its snapshot has a guide and hashes to what was promoted.
pub render_iff :
    (host : Host) (s : SkillStore) (name : String) (e : SkillEnvelope)
    → Named (load_registry s.registry_file)
    → (render_prompt_envelope host s name ≡ some e) ↔ Renders host s name e
render_iff host s name e n = (to, from)
  where
    to : render_prompt_envelope host s name ≡ some e → Renders host s name e
    to shown = elim (Option-cases (get (load_registry s.registry_file) name)) [
      | inl gone ↦ absurd (cc (render-absent host s name n gone, shown))
      | inr (r, known) ↦
          rendered-Renders host s name e r known
            (sym (render-rendered host s name r n known) ∙ shown)
    ]

    from : Renders host s name e → render_prompt_envelope host s name ≡ some e
    from r = render-rendered host s name r.active n r.registered ∙ Renders-rendered host s name e r

-- A skill whose snapshot was changed after its promotion is not rendered: with a digest that never
-- collides, another list of hashed files is refused.
render_tampered :
    (host : Host) (s : SkillStore) (name : String) (r : SkillRegistryRecord)
    (original current : Entries)
    → ((a b : String) → host.sha a ≡ host.sha b → a ≡ b)
    → Named (load_registry s.registry_file)
    → get (load_registry s.registry_file) name ≡ some r
    → r.content_hash ≡ compute_skill_content_hash host.sha original
    → get s.candidates r.candidate_id ≡ some current
    → join_lines (hash_lines host.sha current) ≢ join_lines (hash_lines host.sha original)
    → render_prompt_envelope host s name ≡ none
render_tampered host s name r original current free n known hash listed changed =
    elim (Option-cases (render_prompt_envelope host s name)) [
      | inl refused ↦ refused
      | inr (e, shown) ↦
          let r' = (render_iff host s name e n).0 shown in
          let same : r'.active ≡ r = cc (r'.registered, known) in
          let root : r'.root ≡ current = cc (r'.listed, listed, same) in
          let hashed : compute_skill_content_hash host.sha current
              ≡ compute_skill_content_hash host.sha original =
            cc (r'.intact, same, root, hash) in
          absurd (changed (free _ _ (unfold compute_skill_content_hash in hashed)))
    ]
