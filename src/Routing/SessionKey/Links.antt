-- ===== src/Routing/SessionKey/Links.antt =====
-- Identity links: which peers of different channels share a session.
use suprclaw_engine.Prelude.{
  ◌≡◌, refl, ◌∙◌, true, false, ◌&&◌, ◌||◌, not, List, [], ◌∷◌, nat_eq, list_eq, is_nil, arith, inl,
  inr, Bool-cases,
}
use mathlib.Core.List.{Memᴰ}
use suprclaw_engine.Prelude.Text.{Text}
use suprclaw_engine.Prelude.Unicode.{Unicode, to_lower, trim_space}
use suprclaw_engine.Routing.SessionKey.{
  IdentityLinks, link_candidates, links_to, find_link, resolve_linked_peer_id,
}

module _ ⦃u : Unicode⦄ where
  -- An entry with a name, one of whose ids is a candidate.
  abbrev pub Links : List Text → (Text × List Text) → Type 0
  Links candidates (canonical, ids) =
      (is_nil (trim_space canonical) ≡ false) × (links_to candidates ids ≡ true)

  find_link_sound :
      (candidates : List Text) (links : IdentityLinks)
      → is_nil (find_link candidates links) ≡ false
      → (entry : Text × List Text) × Memᴰ entry links
        × Links candidates entry
        × (find_link candidates links ≡ trim_space entry.0)
  unfolding find_link
  find_link_sound candidates [] h = absurd (ground arith)
  find_link_sound candidates ((canonical, ids) ∷ links) h =
      elim (Bool-cases (not (is_nil (trim_space canonical)) && links_to candidates ids)) [
        | inl here ↦ ((canonical, ids), Memᴰ.head refl, (ground arith, ground arith), rw here)
        | inr other ↦
            let (entry, m, l, e) = find_link_sound candidates links (rw other at h) in
            (entry, Memᴰ.tail m, l, rw other e)
      ]

  find_link_complete :
      (candidates : List Text) (links : IdentityLinks) (entry : Text × List Text)
      → Memᴰ entry links
      → Links candidates entry
      → is_nil (find_link candidates links) ≡ false
  unfolding find_link
  find_link_complete candidates [] entry m h = elim m [ ]
  find_link_complete candidates ((canonical, ids) ∷ links) entry (Memᴰ.head e) h =
      let k : Links candidates (canonical, ids) = rw e at h in ground arith
  find_link_complete candidates ((canonical, ids) ∷ links) entry (Memᴰ.tail m) h =
      ground (arith, find_link_complete candidates links entry m h)

  candidates-nonempty :
      (channel id : Text) → is_nil id ≡ false → is_nil (link_candidates channel id) ≡ false
  unfolding link_candidates to_lower
  candidates-nonempty channel [] h = absurd (ground arith)
  candidates-nonempty channel (c ∷ id) h = refl

  -- A peer that resolves to a name has it from an entry of the links: the name is the trimmed key of
  -- an entry with a non-blank key, one of whose ids is a candidate for the peer.
  resolve_linked_peer_id_sound :
      (links : IdentityLinks) (channel peer_id : Text)
      → is_nil (resolve_linked_peer_id links channel peer_id) ≡ false
      → (entry : Text × List Text) × Memᴰ entry links
        × Links (link_candidates channel (trim_space peer_id)) entry
        × (resolve_linked_peer_id links channel peer_id ≡ trim_space entry.0)
  unfolding resolve_linked_peer_id
  resolve_linked_peer_id_sound links channel peer_id h =
      let id : Text = trim_space peer_id in
      let candidates : List Text = link_candidates channel id in
      elim (Bool-cases (is_nil links || is_nil id || is_nil candidates)) [
        | inl stop ↦ absurd (ground arith)
        | inr go ↦
            let (entry, m, l, e) = find_link_sound candidates links (rw go at h) in
            (entry, m, l, rw go e)
      ]

  nonempty_of_mem :
      (links : IdentityLinks) {entry : Text × List Text} → Memᴰ entry links → is_nil links ≡ false
  nonempty_of_mem [] m = elim m [ ]
  nonempty_of_mem (l ∷ links) m = refl

  resolve_linked_peer_id_complete :
      (links : IdentityLinks) (channel peer_id : Text) (entry : Text × List Text)
      → is_nil (trim_space peer_id) ≡ false
      → Memᴰ entry links
      → Links (link_candidates channel (trim_space peer_id)) entry
      → is_nil (resolve_linked_peer_id links channel peer_id) ≡ false
  unfolding resolve_linked_peer_id
  resolve_linked_peer_id_complete links channel peer_id entry given m l =
      rw (nonempty_of_mem links m, given, candidates-nonempty channel (trim_space peer_id) given)
        (find_link_complete (link_candidates channel (trim_space peer_id)) links entry m l)

  -- When all the entries that link to a non-blank peer have one trimmed key, the peer resolves to
  -- that key, in whichever order the map is visited.
  resolve_linked_peer_id_unique :
      (links : IdentityLinks) (channel peer_id : Text) (entry : Text × List Text)
      → is_nil (trim_space peer_id) ≡ false
      → Memᴰ entry links
      → Links (link_candidates channel (trim_space peer_id)) entry
      → ((other : Text × List Text)
          → Memᴰ other links
          → Links (link_candidates channel (trim_space peer_id)) other
          → trim_space other.0 ≡ trim_space entry.0)
      → resolve_linked_peer_id links channel peer_id ≡ trim_space entry.0
  resolve_linked_peer_id_unique links channel peer_id entry given m l agree =
      let found = resolve_linked_peer_id_complete links channel peer_id entry given m l in
      let (other, m', l', e) = resolve_linked_peer_id_sound links channel peer_id found in
      e ∙ agree other m' l'
