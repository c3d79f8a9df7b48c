-- ===== src/Spool/Growth.antt =====
-- Files of pkg/spool/queue.go that grow keep the records that they have.
use gametrace.Prelude.{
  ℕ, zero, suc, ◌≤◌, ◌<◌, ◌≡◌, refl, List, [], ◌∷◌, ◌++◌, none, some, arith, length, take, drop, ap,
  sym, ◌∙◌, inl, inr, ℕ_discrete, length-drop, length-take, drop-append_le, append-nil,
}
use gametrace.Prelude.Map.{Map, lookup, insert, lookup-insert}
use gametrace.Spool.Frame.{frame, Entry}
use gametrace.Spool.Recovery.{length-frame}
use gametrace.Spool.Queue.{Cursor}
use gametrace.Spool.Delivery.{IsStored}
use gametrace.Spool.Fifo.{StoredAll, Follows, Chained}

pub take-append_le : (n : ℕ) (xs ys : List ℕ) → n ≤ length xs → take n (xs ++ ys) ≡ take n xs
take-append_le zero xs ys h = refl
take-append_le (suc n) [] ys h = absurd (omega arith)
take-append_le (suc n) (x ∷ xs) ys h = ap (◌∷◌ x) (take-append_le n xs ys (omega arith))

pub IsStored-grow :
    (file more : List ℕ) (e : Entry) (rec : List ℕ)
    → IsStored file e rec
    → IsStored (file ++ more) e rec
IsStored-grow file more e rec s =
    let room : (e.off ≤ length file) × (length (frame rec) ≤ length (drop e.off file)) =
      fits
        (omega (arith, ap length s.placed, length-take (length (frame rec)) (drop e.off file))) in
    record {
      sized = s.sized;
      countable = s.countable;
      placed =
          ap (take (length (frame rec))) (drop-append_le e.off file more room.0)
          ∙ (take-append_le (length (frame rec)) (drop e.off file) more room.1 ∙ s.placed);
    }
  where
    fits :
        length (frame rec) ≤ length (drop e.off file)
        → (e.off ≤ length file) × (length (frame rec) ≤ length (drop e.off file))
    fits h = (omega (arith, h, length-drop e.off file, length-frame rec), h)

-- Every file of the one map is there in the other, with more behind it or not.
abbrev pub Grown : Map ℕ (List ℕ) → Map ℕ (List ℕ) → Type 0
Grown files files' =
    (seg : ℕ) (file : List ℕ)
    → lookup ℕ_discrete seg files ≡ some file
    → (more : List ℕ) × (lookup ℕ_discrete seg files' ≡ some (file ++ more))

pub StoredAll-grow :
    (files files' : Map ℕ (List ℕ)) (es : List Entry) (recs : List (List ℕ))
    → Grown files files'
    → StoredAll files es recs
    → StoredAll files' es recs
StoredAll-grow files files' [] [] g s = tt
StoredAll-grow files files' [] (rec ∷ recs) g s = elim s [ ]
StoredAll-grow files files' (e ∷ es) [] g s = elim s [ ]
StoredAll-grow files files' (e ∷ es) (rec ∷ recs) g s =
    let (file, there, own) = s.0 in
    let (more, there') = g e.seg file there in
    (
      (file ++ more, there', IsStored-grow file more e rec own),
      StoredAll-grow files files' es recs g s.1,
    )

pub StoredAll-snoc :
    (files : Map ℕ (List ℕ)) (es : List Entry) (recs : List (List ℕ)) (e : Entry)
    (rec file : List ℕ)
    → lookup ℕ_discrete e.seg files ≡ some file
    → IsStored file e rec
    → StoredAll files es recs
    → StoredAll files (es ++ e ∷ []) (recs ++ rec ∷ [])
StoredAll-snoc files [] [] e rec file h i s = ((file, h, i), tt)
StoredAll-snoc files [] (r ∷ recs) e rec file h i s = elim s [ ]
StoredAll-snoc files (x ∷ es) [] e rec file h i s = elim s [ ]
StoredAll-snoc files (x ∷ es) (r ∷ recs) e rec file h i s =
    (s.0, StoredAll-snoc files es recs e rec file h i s.1)

pub Chained-snoc :
    (w w' : Cursor) (n : ℕ) (es : List Entry)
    → Follows (record { seg = w.segment; off = w.offset; n = n }) w'
    → Chained w es
    → Chained w' (es ++ record { seg = w.segment; off = w.offset; n = n } ∷ [])
Chained-snoc w w' n [] f c = (f, tt)
Chained-snoc w w' n (x ∷ []) f c = (c.0, (f, tt))
Chained-snoc w w' n (x ∷ (y ∷ es)) f c = (c.0, Chained-snoc w w' n (y ∷ es) f c.1)

pub Chained-later :
    (w w' : Cursor) (es : List Entry) → w.segment < w'.segment → Chained w es → Chained w' es
Chained-later w w' [] h c = tt
Chained-later w w' (x ∷ []) h c = (inr (later c.0), tt)
  where
    later : Follows x w → x.seg < w'.segment
    later (inl f) = omega (arith, h, f.0)
    later (inr f) = omega (arith, h, f)
Chained-later w w' (x ∷ (y ∷ es)) h c = (c.0, Chained-later w w' (y ∷ es) h c.1)

pub insert_new :
    (seg : ℕ) (files : Map ℕ (List ℕ))
    → lookup ℕ_discrete seg files ≡ none
    → Grown files (insert ℕ_discrete seg [] files)
insert_new seg files h s file l =
    ([], ground (arith, h, l, lookup-insert ℕ_discrete seg s [] files, append-nil file))

pub insert_end :
    (seg : ℕ) (files : Map ℕ (List ℕ)) (file more : List ℕ)
    → lookup ℕ_discrete seg files ≡ some file
    → Grown files (insert ℕ_discrete seg (file ++ more) files)
insert_end seg files file more h s f l = go (ℕ_discrete seg s)
  where
    go :
        Dec (seg ≡ s)
        → (rest : List ℕ) × (lookup ℕ_discrete s (insert ℕ_discrete seg (file ++ more) files)
            ≡ some (f ++ rest))
    go (yes p) =
        let same : some file ≡ some f = sym h ∙ (ap (λ x. lookup ℕ_discrete x files) p ∙ l) in
        (more, ground (arith, p, same, lookup-insert ℕ_discrete seg s (file ++ more) files))
    go (no n) = (
      [],
      ground (arith, n, l, lookup-insert ℕ_discrete seg s (file ++ more) files, append-nil f),
    )
