-- ===== src/Points/Locations.antt =====
-- ahb_aclint/sim/rtl_sim/bin/cov_report.py: the accumulation to source locations of `main`, the
-- waivers and the table of hit and found points per file and page.
use arvern_ips.Prelude.{
  ℕ, suc, ◌*◌, ◌/◌, max, Bool, not, ◌&&◌, none, some, List, [], ◌∷◌, ◌++◌, map, ltb, ◌==◌,
  if◌then◌else◌, keep_if, is_nil, eqb, nat_eq, list_eq, pair_eq, Text, codes, basename,
}
use arvern_ips.Prelude.Dict.{Dict, keys, lookup, insert}
use arvern_ips.Prelude.Decimal.{int, show}
use arvern_ips.Prelude.Sorting.{text_le, sort}
use arvern_ips.Points.Database.{Hit, fields, field_or}
use arvern_ips.Waivers.Match.{Waiver, Point, match, waiver_name, stale}

-- `(path, line, page, label, column)`
abbrev pub Location : Type 0
Location = Text × (Text × (Text × (Text × Text)))

unfoldable pub location : Text → Hit → Location
location key h =
    let d = fields key in
    (
      h.path,
      (field_or (codes "l") d [], (h.page, (field_or (codes "o") d [], field_or (codes "n") d []))),
    )

unfoldable pub add_location : Dict Location Hit → Location → Hit → Dict Location Hit
add_location acc k h = elim (lookup k acc) [
  | none ↦ insert k h acc
  | some prev ↦ insert k (record h { count = max prev.count h.count }) acc
]

unfoldable pub accumulate : Dict Location Hit → Dict Text Hit → Dict Location Hit
accumulate acc [] = acc
accumulate acc ((key, h) ∷ pts) = accumulate (add_location acc (location key h) h) pts

-- `int(k[1] or 0)`
unfoldable pub point_at : Location → Point
point_at (path, (l, (page, (o, n)))) = record {
  path = path;
  line = (if is_nil l then 0 else int l);
  page = page;
  sig = o;
}

unfoldable pub unwaived :
    (Text → List Text)
    → (Text → Text → Bool)
    → List Waiver
    → Dict Location Hit
    → Dict Location Hit × List Waiver
unwaived source search ws [] = ([], ws)
unwaived source search ws ((k, h) ∷ pts) =
    let (found, ws') = match source search ws (point_at k) in
    let rest = unwaived source search ws' pts in
    elim found [ some w ↦ rest | none ↦ ((k, h) ∷ rest.0, rest.1) ]

-- `agg[name][page]`: how many points are hit, and how many there are.
unfoldable pub tally : Text → Text → Dict Location Hit → ℕ × ℕ
tally name page [] = (0, 0)
tally name page ((k, h) ∷ pts) =
    let (hit, found) = tally name page pts in
    if eqb (basename h.path) name && eqb h.page page
    then ((if ltb 0 h.count then suc hit else hit), suc found)
    else (hit, found)

-- `"%d/%d %d%%" % (hit, found, 100 * hit / found) if found else "-"`
unfoldable pub cell : ℕ × ℕ → Text
cell (hit, found) =
    if found == 0
    then codes "-"
    else show hit ++ (b'/' ∷ (show found ++ (b' ' ∷ (show ((100 * hit) / found) ++ codes "%"))))

-- `(name, line, page, kind)`
abbrev pub Spot : Type 0
Spot = Text × (ℕ × (Text × Text))

unfoldable pub spot : Location → Hit → Spot
spot (path, (l, (page, (o, n)))) h =
    (basename h.path, ((if is_nil l then 0 else int l), (h.page, o)))

-- `loc[k] = max(loc.get(k, 0), cnt)`, for all points but toggles.
unfoldable pub collect_spots : Dict Spot ℕ → Dict Location Hit → Dict Spot ℕ
collect_spots loc [] = loc
collect_spots loc ((k, h) ∷ pts) =
    let s = spot k h in
    let most : ℕ = elim (lookup s loc) [ none ↦ h.count | some c ↦ max c h.count ] in
    collect_spots (if eqb h.page (codes "v_toggle") then loc else insert s most loc) pts

-- The order of tuples.
unfoldable pub spot_le : Spot → Spot → Bool
spot_le (a, (m, (b, c))) (a', (m', (b', c'))) =
    if not (eqb a a')
    then text_le a a'
    else if not (m == m')
    then ltb m m'
    else if not (eqb b b')
    then text_le b b'
    else text_le c c'

unfoldable pub uncovered_spots : Dict Location Hit → List Spot
uncovered_spots pts =
    sort spot_le (keys (keep_if (λ (p : Spot × ℕ). p.1 == 0) (collect_spots [] pts)))

-- The hits and the points of a page over all files.
unfoldable pub total : Text → Dict Location Hit → ℕ × ℕ
total page [] = (0, 0)
total page ((k, h) ∷ pts) =
    let (hit, found) = total page pts in
    if eqb h.page page then ((if ltb 0 h.count then suc hit else hit), suc found) else (hit, found)

-- The line on a waiver that matched nothing.
unfoldable pub stale_line : Waiver → Text
stale_line w =
    codes "STALE WAIVER: "
    ++ (waiver_name w ++ (codes " matched nothing  (" ++ (w.src ++ (codes ") -- " ++ w.reason))))

unfoldable pub stale_lines : List Waiver → List Text
stale_lines ws = map stale_line (stale ws)
