-- ===== src/Governance/Known.antt =====
-- The tracks and the origins that there are (runtime/src/governance.rs).
use chain_testing.Prelude.{
  ℕ, ◌≡◌, ◌⊎◌, inl, inr, ◌↔◌, refl, Option, none, some, List, Bool, Bool-cases, true, false,
  is_some, not,
}
use chain_testing.Governance.Tracks.{
  TrackInfo, PalletsOrigin, root_origin, none_origin, signed_origin, other_origin, community_tracks,
  tech_tracks, community_track_for, tech_track_for, info, check_integrity, collective_try_origin,
  tech_try_origin,
}

-- Whether an origin is sent to a track that there is not.
abbrev pub leads_nowhere : Option ℕ → List (ℕ × TrackInfo) → Bool
leads_nowhere none tracks = false
leads_nowhere (some id) tracks = not (is_some (info tracks id))

-- The tracks of both kinds have unique ids. Every origin that the community's tracks accept is sent
-- to one of them; but the tracks of the collective send every signed origin, and that of nobody, to
-- a track that there is not, and only the root to one that there is.
pub track_for-info :
    (origin : PalletsOrigin)
    → (check_integrity community_tracks ≡ true)
      × (check_integrity tech_tracks ≡ true)
      × (leads_nowhere (community_track_for origin) community_tracks ≡ false)
      × ((leads_nowhere (tech_track_for origin) tech_tracks ≡ true)
          ↔ ((origin ≡ none_origin) ⊎ ((who : ℕ) × (origin ≡ signed_origin who))))
unfolding community_tracks tech_tracks community_track_for tech_track_for info check_integrity
track_for-info root_origin =
    (refl, refl, refl, (λ e. absurd cc, elim [ inl e ↦ absurd cc | inr (who, e) ↦ absurd cc ]))
track_for-info none_origin = (refl, refl, refl, (λ e. inl refl, λ e. refl))
track_for-info (signed_origin who) = (refl, refl, refl, (λ e. inr (who, refl), λ e. refl))
track_for-info (other_origin n) =
    (refl, refl, refl, (λ e. absurd cc, elim [ inl e ↦ absurd cc | inr (who, e) ↦ absurd cc ]))

module _ (is_member : ℕ → Bool) where
  -- A signed origin of a member.
  abbrev pub IsMember : PalletsOrigin → Type 0
  IsMember origin = (who : ℕ) × (origin ≡ signed_origin who) × (is_member who ≡ true)

  no_member : (who : ℕ) → is_member who ≡ false → IsMember (signed_origin who) → ⊥
  no_member who stranger (other, e, member) = let same : who ≡ other = cc in cc

  -- The first origin accepts the root and exactly the members of the collective; the second one
  -- accepts exactly the members, and never the root.
  pub try_origin_iff :
      (origin : PalletsOrigin)
      → ((is_some (collective_try_origin is_member origin) ≡ true)
          ↔ ((origin ≡ root_origin) ⊎ IsMember origin))
        × ((is_some (tech_try_origin is_member origin) ≡ true) ↔ IsMember origin)
  unfolding collective_try_origin tech_try_origin
  try_origin_iff root_origin =
      ((λ e. inl refl, λ e. refl), (λ e. absurd cc, λ (who, e, _). absurd cc))
  try_origin_iff none_origin = (
    (λ e. absurd cc, elim [ inl e ↦ absurd cc | inr (who, e, _) ↦ absurd cc ]),
    (λ e. absurd cc, λ (who, e, _). absurd cc),
  )
  try_origin_iff (signed_origin who) = elim (Bool-cases (is_member who)) [
    | inl member ↦
        rw member ((λ e. inr (who, refl, member), λ e. refl), (λ e. (who, refl, member), λ e. refl))
    | inr stranger ↦ rw stranger (
      (
        λ e. absurd cc,
        elim [ inl e ↦ absurd cc | inr member ↦ absurd (no_member who stranger member) ],
      ),
      (λ e. absurd cc, λ member. absurd (no_member who stranger member)),
    )
  ]
  try_origin_iff (other_origin n) = (
    (λ e. absurd cc, elim [ inl e ↦ absurd cc | inr (who, e, _) ↦ absurd cc ]),
    (λ e. absurd cc, λ (who, e, _). absurd cc),
  )
