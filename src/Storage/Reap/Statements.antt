-- ===== src/Storage/Reap/Statements.antt =====
-- internal/storage/zombie_reap.go: the chunked `UPDATE` statements against one statement for all ids.
use surfbot_agent.Base.{
  ℕ, ◌+◌, ◌≡◌, refl, ◌∙◌, ap, subst, Bool, false, ◌&&◌, ◌||◌, Option, none, some, List, [], ◌∷◌,
  ◌++◌, String, map, arith, if◌then◌else◌, Bool-cases, inl, inr, count_if, ◌⊎◌,
}
use surfbot_agent.Storage.Reap.{
  is_in, update_where, mark_chunks, mark_rows, chunk_ids, reap_batch_size, scan_hit, ad_hoc_hit,
  tool_hit, failed_scan, failed_ad_hoc, failed_tool, is_open, is_in_nullable,
}
use surfbot_agent.Model.{Time}
use surfbot_agent.Storage.Reap.Chunks.{concat, chunk_ids-concat}

-- A row after one statement.
abbrev pub touch {ℓ} : {A : Type ℓ} → (A → Bool) → (A → A) → A → A
touch p f row = if p row then f row else row

-- What a `WHERE` clause and a `SET` clause have to do with each other: a changed row matches no more.
pub record HitLaws {A : Type 0} (hit : List String → A → Bool) (f : A → A) : Type 0 where
  pub hit_none : (row : A) → hit [] row ≡ false
  pub hit_append :
      (ids js : List String) (row : A) → hit (ids ++ js) row ≡ (hit ids row || hit js row)
  pub hit_once : (ids : List String) (row : A) → hit ids (f row) ≡ false

pub is_in-append :
    (ids js : List String) (id : String) → is_in (ids ++ js) id ≡ (is_in ids id || is_in js id)
unfolding is_in
is_in-append [] js id = refl
is_in-append (i ∷ ids) js id = ground (arith, is_in-append ids js id)

pub scan-HitLaws :
    (message : String) (finished now : Time) → HitLaws scan_hit (failed_scan message finished now)
unfolding is_in
scan-HitLaws message finished now = record {
  hit_none = λ row. ground arith;
  hit_append = λ ids js row. ground (arith, is_in-append ids js row.id);
  hit_once = λ ids row. refl;
}

pub ad_hoc-HitLaws : (finished : Time) → HitLaws ad_hoc_hit (failed_ad_hoc finished)
unfolding is_in
ad_hoc-HitLaws finished = record {
  hit_none = λ row. none_hit row.scan_id (is_open row.status);
  hit_append = λ ids js row. append_hit ids js row.scan_id (is_open row.status);
  hit_once = λ ids row. refl;
}
  where
    none_hit : (id : Option String) (b : Bool) → (b && is_in_nullable [] id) ≡ false
    none_hit none b = ground arith
    none_hit (some id) b = ground arith

    append_hit :
        (ids js : List String) (id : Option String) (b : Bool)
        → (b && is_in_nullable (ids ++ js) id)
          ≡ ((b && is_in_nullable ids id) || (b && is_in_nullable js id))
    append_hit ids js none b = ground arith
    append_hit ids js (some id) b = ground (arith, is_in-append ids js id)

pub tool-HitLaws : (finished now : Time) → HitLaws tool_hit (failed_tool finished now)
unfolding is_in
tool-HitLaws finished now = record {
  hit_none = λ row. ground arith;
  hit_append = λ ids js row. ground (arith, is_in-append ids js row.scan_id);
  hit_once = λ ids row. refl;
}

module _ {A : Type 0} where
  update_where_lem :
      (p : A → Bool) (f : A → A) (rows : List A)
      → update_where p f rows ≡ (map (touch p f) rows, count_if p rows)
  unfolding update_where
  update_where_lem p f [] = refl
  update_where_lem p f (row ∷ rows) = ground (arith, update_where_lem p f rows)

  touch_congr :
      (p q : A → Bool) (f : A → A) (rows : List A)
      → ((row : A) → p row ≡ q row)
      → (map (touch p f) rows ≡ map (touch q f) rows) × (count_if p rows ≡ count_if q rows)
  touch_congr p q f [] e = (refl, refl)
  touch_congr p q f (row ∷ rows) e =
      let (m, c) = touch_congr p q f rows e in rw (e row, m, c) (refl, refl)

  pub touch_none :
      (p : A → Bool) (f : A → A) (rows : List A)
      → ((row : A) → p row ≡ false)
      → (map (touch p f) rows ≡ rows) × (count_if p rows ≡ 0)
  touch_none p f [] e = (refl, refl)
  touch_none p f (row ∷ rows) e =
      let (m, c) = touch_none p f rows e in rw (e row, m, c) (refl, omega arith)

module _ {A : Type 0} {hit : List String → A → Bool} {f : A → A} (laws : HitLaws hit f) where
  touch_twice :
      (ids js : List String) (rows : List A)
      → (map (touch (hit js) f) (map (touch (hit ids) f) rows)
          ≡ map (touch (hit (ids ++ js)) f) rows)
        × (count_if (hit ids) rows + count_if (hit js) (map (touch (hit ids) f) rows)
            ≡ count_if (hit (ids ++ js)) rows)
  touch_twice ids js [] = (refl, omega arith)
  touch_twice ids js (row ∷ rows) =
      let (m, c) = touch_twice ids js rows in
      elim (Bool-cases (hit ids row)) [
        | inl yes' ↦
            rw (laws.hit_append ids js row, yes', laws.hit_once js row, m) (refl, omega (arith, c))
        | inr no' ↦ rw (laws.hit_append ids js row, no', m) (refl, omega (arith, c))
      ]

  mark_chunks_lem :
      (fails : List String → Bool) (chunks : List (List String)) (total : ℕ) (rows : List A)
      → ((mark_chunks fails hit f chunks total rows).1 ≡ none)
        ⊎ (mark_chunks fails hit f chunks total rows ≡ (
          map (touch (hit (concat chunks)) f) rows,
          some (total + count_if (hit (concat chunks)) rows),
        ))
  unfolding mark_chunks concat
  mark_chunks_lem fails [] total rows =
      let (m, c) = touch_none (hit []) f rows laws.hit_none in
      inr (rw (m, c) (ap (λ k. (rows, some k)) (omega arith)))
  mark_chunks_lem fails (chunk ∷ chunks) total rows = elim (Bool-cases (fails chunk)) [
    | inl failed ↦ inl (rw failed refl)
    | inr passed ↦
        let rows' = map (touch (hit chunk) f) rows in
        let n = count_if (hit chunk) rows in
        let (m, c) = touch_twice chunk (concat chunks) rows in
        let ended = mark_chunks_lem fails chunks (total + n) rows' in
        rw (passed, update_where_lem (hit chunk) f rows)
          (elim ended [ inl failed ↦ inl failed | inr e ↦ inr (e ∙ both m (omega (arith, c))) ])
  ]
    where
      both :
          {xs ys : List A} {n m : ℕ}
          → xs ≡ ys
          → n ≡ m
          → ◌≡◌ {A = List A × Option ℕ} (xs, some n) (ys, some m)
      both e g = rw (e, g) refl

  mark_chunks_runs :
      (fails : List String → Bool) (chunks : List (List String)) (total : ℕ) (rows : List A)
      → ((ids : List String) → fails ids ≡ false)
      → (n : ℕ) × ((mark_chunks fails hit f chunks total rows).1 ≡ some n)
  unfolding mark_chunks
  mark_chunks_runs fails [] total rows h = (total, refl)
  mark_chunks_runs fails (chunk ∷ chunks) total rows h =
      let (rows', n) = update_where (hit chunk) f rows in
      rw (h chunk) (mark_chunks_runs fails chunks (total + n) rows' h)

  -- The statements for all the chunks do what one statement for all the ids would do, and count the same rows,
  -- unless a call fails; and when none of the calls fails there is such a result.
  pub mark_rows_lem :
      (fails : List String → Bool) (ids : List String) (rows : List A)
      → (((mark_rows fails hit f ids rows).1 ≡ none)
          ⊎ (mark_rows fails hit f ids rows
              ≡ (map (touch (hit ids) f) rows, some (count_if (hit ids) rows))))
        × (((js : List String) → fails js ≡ false)
            → (n : ℕ) × ((mark_rows fails hit f ids rows).1 ≡ some n))
  unfolding mark_rows
  mark_rows_lem fails [] rows =
      let (m, c) = touch_none (hit []) f rows laws.hit_none in
      (inr (rw (m, c) refl), λ h. (0, refl))
  mark_rows_lem fails (id ∷ ids) rows =
      let (whole, small) = chunk_ids-concat (id ∷ ids) reap_batch_size (omega arith) in
      let chunks = chunk_ids (id ∷ ids) reap_batch_size in
      (
        subst
            (λ js.
              ((mark_chunks fails hit f chunks 0 rows).1 ≡ none)
              ⊎ (mark_chunks fails hit f chunks 0 rows
                  ≡ (map (touch (hit js) f) rows, some (count_if (hit js) rows))))
            whole
            (elim (mark_chunks_lem fails chunks 0 rows) [
              | inl failed ↦ inl failed
              | inr e ↦
                  inr
                    (e ∙ ap (λ k. (map (touch (hit (concat chunks)) f) rows, some k)) (omega arith))
            ]),
        mark_chunks_runs fails chunks 0 rows,
      )
