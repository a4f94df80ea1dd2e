-- ===== src/Governance/Tracks.antt =====
-- `CommunityTracksInfo`, `TechCollectiveTracksInfo` and the two custom origins of
-- runtime/src/governance.rs.
use chain_testing.Prelude.{
  ℕ, ◌*◌, Option, none, some, List, [], ◌∷◌, Bool, leb, ◌==◌, if◌then◌else◌, length, map,
}

-- The constants of runtime/src/lib.rs.
abbrev pub hours : ℕ
hours = 60 * 60

abbrev pub days : ℕ
days = hours * 24

abbrev pub unit : ℕ
unit = 1_000_000_000_000

-- An origin of a call, seen by its pallet: root, nobody or an account, or that of another pallet.
pub data PalletsOrigin : Type 0 where
  root_origin none_origin : PalletsOrigin
  signed_origin other_origin : ℕ → PalletsOrigin

-- A curve, with its length, floor and ceiling in percent.
pub data Curve : Type 0 where
  linear_decreasing : ℕ → ℕ → ℕ → Curve

-- A track, but for its name.
pub record TrackInfo : Type 0 where
  pub max_deciding : ℕ
  pub decision_deposit : ℕ
  pub prepare_period : ℕ
  pub decision_period : ℕ
  pub confirm_period : ℕ
  pub min_enactment_period : ℕ
  pub min_approval : Curve
  pub min_support : Curve

abbrev pub signed_track : TrackInfo
signed_track = record {
  max_deciding = 5;
  decision_deposit = 500 * unit;
  prepare_period = 12 * hours;
  decision_period = 7 * days;
  confirm_period = 12 * hours;
  min_enactment_period = 1 * days;
  min_approval = linear_decreasing 100 55 70;
  min_support = linear_decreasing 100 5 25;
}

abbrev pub signaling_track : TrackInfo
signaling_track = record {
  max_deciding = 20;
  decision_deposit = 100 * unit;
  prepare_period = 6 * hours;
  decision_period = 5 * days;
  confirm_period = 3 * hours;
  min_enactment_period = 1;
  min_approval = linear_decreasing 100 50 60;
  min_support = linear_decreasing 100 1 10;
}

abbrev pub root_track : TrackInfo
root_track = record {
  max_deciding = 1;
  decision_deposit = 1000 * unit;
  prepare_period = 1 * days;
  decision_period = 5 * days;
  confirm_period = 2 * days;
  min_enactment_period = 2 * days;
  min_approval = linear_decreasing 100 75 100;
  min_support = linear_decreasing 0 0 0;
}

unfoldable pub community_tracks : List (ℕ × TrackInfo)
community_tracks = (0, signed_track) ∷ (1, signaling_track) ∷ []

unfoldable pub tech_tracks : List (ℕ × TrackInfo)
tech_tracks = (0, root_track) ∷ []

-- `track_for`; `none` is its error.
unfoldable pub community_track_for : PalletsOrigin → Option ℕ
community_track_for none_origin = some 1
community_track_for (signed_origin who) = some 0
community_track_for root_origin = none
community_track_for (other_origin n) = none

unfoldable pub tech_track_for : PalletsOrigin → Option ℕ
tech_track_for root_origin = some 0
tech_track_for none_origin = some 2
tech_track_for (signed_origin who) = some 1
tech_track_for (other_origin n) = none

-- `info`: the first track of an id.
unfoldable pub info : List (ℕ × TrackInfo) → ℕ → Option TrackInfo
info [] id = none
info ((key, track) ∷ tracks) id = if key == id then some track else info tracks id

abbrev pub insert_sorted : ℕ → List ℕ → List ℕ
insert_sorted id [] = id ∷ []
insert_sorted id (x ∷ xs) = if leb id x then id ∷ x ∷ xs else x ∷ insert_sorted id xs

abbrev pub sort : List ℕ → List ℕ
sort [] = []
sort (x ∷ xs) = insert_sorted x (sort xs)

-- `dedup`: of equal neighbours one is kept.
abbrev pub dedup_after : ℕ → List ℕ → List ℕ
dedup_after last [] = []
dedup_after last (x ∷ xs) = if x == last then dedup_after last xs else x ∷ dedup_after x xs

abbrev pub dedup : List ℕ → List ℕ
dedup [] = []
dedup (x ∷ xs) = x ∷ dedup_after x xs

-- `check_integrity`: the ids of the tracks are unique.
unfoldable pub check_integrity : List (ℕ × TrackInfo) → Bool
check_integrity tracks =
    length (dedup (sort (map (λ (track : ℕ × TrackInfo). track.0) tracks))) == length tracks

-- `is_member` says whether an account is a member of the collective.
module _ (is_member : ℕ → Bool) where
  -- `RootOrMemberForCollectiveOriginImpl::try_origin`, with the rank; `none` refuses the origin.
  unfoldable pub collective_try_origin : PalletsOrigin → Option ℕ
  collective_try_origin root_origin = some 0
  collective_try_origin (signed_origin who) = if is_member who then some 0 else none
  collective_try_origin none_origin = none
  collective_try_origin (other_origin n) = none

  -- `EnsureSigned::try_origin`.
  abbrev pub ensure_signed_origin : PalletsOrigin → Option ℕ
  ensure_signed_origin (signed_origin who) = some who
  ensure_signed_origin root_origin = none
  ensure_signed_origin none_origin = none
  ensure_signed_origin (other_origin n) = none

  -- The last `match` of `RootOrMemberForTechReferendaOriginImpl::try_origin`.
  abbrev pub member_origin : PalletsOrigin → Option ℕ
  member_origin (signed_origin who) = if is_member who then some who else none
  member_origin root_origin = none
  member_origin none_origin = none
  member_origin (other_origin n) = none

  abbrev pub or_else : Option ℕ → Option ℕ → Option ℕ
  or_else (some who) rest = some who
  or_else none rest = rest

  -- `RootOrMemberForTechReferendaOriginImpl::try_origin`, with the account that it succeeds with.
  unfoldable pub tech_try_origin : PalletsOrigin → Option ℕ
  tech_try_origin root_origin =
      or_else (ensure_signed_origin root_origin) (member_origin root_origin)
  tech_try_origin (signed_origin who) = member_origin (signed_origin who)
  tech_try_origin none_origin = member_origin none_origin
  tech_try_origin (other_origin n) = member_origin (other_origin n)
