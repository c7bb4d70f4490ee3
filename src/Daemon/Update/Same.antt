-- ===== src/Daemon/Update/Same.antt =====
-- The peers that the selection has marked against those of the daemon: only flash bits differ.
use ntpsec_rs.Prelude.{
  ℕ, zero, suc, ◌≡◌, refl, sym, ◌∙◌, ap, some, List, [], ◌∷◌, is_empty, ◌==◌, map, false,
  Bool-cases, some_eq, inl, inr,
}
use ntpsec_rs.Types.{NtpTs64}
use ntpsec_rs.Proto.{is_reachable}
use ntpsec_rs.Float.{Float}
use ntpsec_rs.Peer.{Peer, get_elem?}
use ntpsec_rs.Select.Marks.{forget_flash, clock_intersection-count_clear}
use ntpsec_rs.Select.Intersection.{clock_intersection}
use ntpsec_rs.Select.System.{SystemState, mark_unreachable, update_from_peers}
use ntpsec_rs.Daemon.Update.{write_back}

module _ (f : Float) where
  -- The peers of two lists differ in nothing but their flash bits.
  abbrev pub Same : List (Peer f) → List (Peer f) → Type 0
  Same [] [] = Unit
  Same (m ∷ ms) (p ∷ ps) = (forget_flash f m ≡ forget_flash f p) × Same ms ps
  Same ms ps = ⊥

  Same-map_forget :
      (ms ps : List (Peer f)) → map (forget_flash f) ms ≡ map (forget_flash f) ps → Same ms ps
  Same-map_forget [] [] h = _
  Same-map_forget [] (p ∷ ps) h = cc
  Same-map_forget (m ∷ ms) [] h = cc
  Same-map_forget (m ∷ ms) (p ∷ ps) h = (cc, Same-map_forget ms ps cc)

  pub write_back-Same : (ms ps : List (Peer f)) → Same ms ps → write_back f ps ms ≡ ms
  unfolding write_back
  write_back-Same [] [] h = refl
  write_back-Same [] (p ∷ ps) h = absurd h
  write_back-Same (m ∷ ms) [] h = absurd h
  write_back-Same (m ∷ ms) (p ∷ ps) h =
      let head : record p {
        offset = m.offset;
        delay = m.delay;
        dispersion = m.dispersion;
        jitter = m.jitter;
        stratum = m.stratum;
        leap = m.leap;
        flash = m.flash;
      }
          ≡ m =
        ap
          (λ (q : Peer f). record q {
            flash = m.flash;
            offset = m.offset;
            delay = m.delay;
            dispersion = m.dispersion;
            jitter = m.jitter;
            stratum = m.stratum;
            leap = m.leap;
          })
          (sym h.0) in
      λ i. head i ∷ write_back-Same ms ps h.1 i

  pub get-Same :
      (i : ℕ) (ms ps : List (Peer f)) (m : Peer f)
      → Same ms ps
      → get_elem? f i ms ≡ some m
      → (p : Peer f) × ((get_elem? f i ps ≡ some p) × (p.associd ≡ m.associd))
  unfolding get_elem?
  get-Same i [] ps m h e = cc
  get-Same i (x ∷ ms) [] m h e = absurd h
  get-Same zero (x ∷ ms) (p ∷ ps) m h e = (
    p,
    (refl, ap (λ (q : Peer f). q.associd) (sym h.0) ∙ ap (λ (q : Peer f). q.associd) (some_eq e)),
  )
  get-Same (suc i) (x ∷ ms) (p ∷ ps) m h e = get-Same i ms ps m h.1 e

  mark_unreachable-forget : (p : Peer f) → forget_flash f (mark_unreachable f p) ≡ forget_flash f p
  unfolding mark_unreachable
  mark_unreachable-forget p = elim (Bool-cases (is_reachable p.reach)) [
    | inl h ↦ rw h refl
    | inr h ↦ rw h refl
  ]

  map_unreachable-forget :
      (ps : List (Peer f))
      → map (forget_flash f) (map (mark_unreachable f) ps) ≡ map (forget_flash f) ps
  map_unreachable-forget [] = refl
  map_unreachable-forget (p ∷ ps) = λ i. mark_unreachable-forget p i ∷ map_unreachable-forget ps i

  is_empty-map_unreachable :
      (ps : List (Peer f)) → is_empty ps ≡ false → is_empty (map (mark_unreachable f) ps) ≡ false
  is_empty-map_unreachable [] h = h
  is_empty-map_unreachable (p ∷ ps) h = refl

  pub update_from_peers-Same :
      (now : NtpTs64) (peers : List (Peer f)) (s : SystemState f)
      → is_empty peers ≡ false
      → Same (update_from_peers f now peers s).1 peers
  unfolding update_from_peers
  update_from_peers-Same now peers s h =
      let marked = clock_intersection f now (map (mark_unreachable f) peers) in
      let some_peers : is_empty (map (mark_unreachable f) peers) ≡ false =
        is_empty-map_unreachable peers h in
      let kept = Same-map_forget marked.1 peers (
        (clock_intersection-count_clear f now (map (mark_unreachable f) peers) some_peers).1
        ∙ map_unreachable-forget peers) in
      elim (Bool-cases (marked.0 == 0)) [ inl e ↦ rw e kept | inr e ↦ rw e kept ]
