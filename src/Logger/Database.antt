-- ===== src/Logger/Database.antt =====
-- content-writer/DbContentWriter.h and `executeQuery` of util/SQLAccess.h. SQLite is a parameter: what a
-- statement gives and does to the database, and the rows of the table.
use cpp_socket_programming.Text.{Text, strip, c_string}
use cpp_socket_programming.Text.Lines.{Without, Without-append, c_string-whole}
use cpp_socket_programming.Prelude.{
  ℕ, ◌≡◌, ◌≢◌, refl, sym, subst, ap, ◌∙◌, Bool, true, false, not, ◌&&◌, List, [], ◌∷◌, ◌++◌,
  append-nil, append_assoc, Option, none, some, arith, ◌==◌, if◌then◌else◌,
}

-- INSERT INTO logs VALUES('
abbrev pub insert_open : Text
insert_open =
    73 ∷ 78 ∷ 83 ∷ 69 ∷ 82 ∷ 84 ∷ 32 ∷ 73 ∷ 78 ∷ 84 ∷ 79 ∷ 32 ∷ 108 ∷ 111 ∷ 103 ∷ 115 ∷ 32 ∷ 86 ∷ 65
    ∷ 76 ∷ 85 ∷ 69 ∷ 83 ∷ 40 ∷ 39 ∷ []

-- ');
abbrev pub insert_end : Text
insert_end = 39 ∷ 41 ∷ 59 ∷ []

-- The query of `WriteToMedia`.
unfoldable pub insert_query : Text → Text
insert_query content = insert_open ++ (content ++ insert_end)

-- A literal of SQL behind its first quote: its value, and the text behind it. The flag says that a quote
-- has been read, which a second quote makes one of the value.
abbrev pub with_byte : ℕ → Option (Text × Text) → Option (Text × Text)
with_byte c none = none
with_byte c (some (t, rest)) = some (c ∷ t, rest)

unfoldable pub read_literal : Bool → Text → Option (Text × Text)
read_literal true [] = some ([], [])
read_literal false [] = none
read_literal true (c ∷ cs) =
    let inside = with_byte c (read_literal false cs) in
    if c == 39 then inside else some ([], c ∷ cs)
read_literal false (c ∷ cs) =
    let quote = read_literal true cs in
    let plain = with_byte c (read_literal false cs) in if c == 39 then quote else plain

abbrev pub literal_in : Option Text → Option (Text × Text)
literal_in none = none
literal_in (some behind) = read_literal false behind

-- The value of the insert statement, and what stands behind its literal.
unfoldable pub value_of : Text → Option (Text × Text)
unfolding strip read_literal
value_of query = literal_in (strip insert_open query)

module _ {Db : Type 0} (exec : Text → Db → Bool × Db) (is_open : Bool) where
  -- `executeQuery`, with the query up to its first NUL.
  unfoldable pub execute_query : Text → Db → Bool × Db
  unfolding c_string
  execute_query query d = exec (c_string query) d

  -- `WriteToMedia`.
  unfoldable pub write_to_media : Text → Db → Bool × Db
  unfolding execute_query insert_query
  write_to_media content d = if is_open then execute_query (insert_query content) d else (false, d)

  -- `Flush`, with what each `WriteToMedia` gives.
  unfoldable pub flush : List Text → Db → List Bool × Db
  unfolding write_to_media
  flush [] d = ([], d)
  flush (m ∷ queue) d =
      let (ok, d1) = write_to_media m d in let (oks, d2) = flush queue d1 in (ok ∷ oks, d2)

-- The messages for which the result was true.
abbrev pub those : List Bool → List Text → List Text
those [] queue = []
those (ok ∷ oks) [] = []
those (true ∷ oks) (m ∷ queue) = m ∷ those oks queue
those (false ∷ oks) (m ∷ queue) = those oks queue

not_quote : (c : ℕ) → c ≢ 39 → (c == 39) ≡ false
not_quote c h = ground (arith, h)

-- A quote is followed by another byte than a quote, and what stands before it has none.
those-first :
    (ok : Bool) (oks : List Bool) (m : Text) (queue : List Text)
    → those (ok ∷ []) (m ∷ []) ++ those oks queue ≡ those (ok ∷ oks) (m ∷ queue)
those-first true oks m queue = refl
those-first false oks m queue = refl

read_literal-quote :
    (t : Text) (c : ℕ) (rest : Text)
    → Without 39 t
    → c ≢ 39
    → read_literal false (t ++ (39 ∷ c ∷ rest)) ≡ some (t, c ∷ rest)
unfolding read_literal
read_literal-quote [] c rest h k = rw (not_quote c k) refl
read_literal-quote (b ∷ t) c rest h k = rw (not_quote b h.0, read_literal-quote t c rest h.1 k) refl

value_of-query :
    (t rest : Text) (c : ℕ)
    → Without 39 t
    → c ≢ 39
    → value_of (insert_open ++ (t ++ (39 ∷ c ∷ rest))) ≡ some (t, c ∷ rest)
unfolding value_of strip
value_of-query t rest c h k = read_literal-quote t c rest h k

abbrev lacks : ℕ → Text → Bool
lacks x [] = true
lacks x (c ∷ cs) = not (c == x) && lacks x cs

lacks-Without : (x : ℕ) (t : Text) → lacks x t ≡ true → Without x t
lacks-Without x [] h = tt
lacks-Without x (c ∷ cs) h = ground (arith, lacks-Without x cs)

c_string-insert_query : (m : Text) → Without 0 m → c_string (insert_query m) ≡ insert_query m
unfolding insert_query
c_string-insert_query m h = c_string-whole (insert_query m) (
    Without-append 0 insert_open (m ++ insert_end) (lacks-Without 0 insert_open refl) (
      Without-append 0 m insert_end h
        (λ e. absurd (omega arith), (λ e. absurd (omega arith), (λ e. absurd (omega arith), tt)))))

-- A message with a quote ends the literal there, and what stands behind the quote is read as SQL.
pub value_of-quoted :
    (t rest : Text) (c : ℕ)
    → Without 39 t
    → c ≢ 39
    → value_of (insert_query (t ++ (39 ∷ c ∷ rest))) ≡ some (t, c ∷ (rest ++ insert_end))
unfolding insert_query
value_of-quoted t rest c h k =
    ap (λ l. value_of (insert_open ++ l)) (append_assoc t (39 ∷ c ∷ rest) insert_end)
    ∙ value_of-query t (rest ++ insert_end) c h k

-- No quote and no NUL.
abbrev pub AllPlain : List Text → Type 0
AllPlain [] = Unit
AllPlain (m ∷ queue) = Without 39 m × Without 0 m × AllPlain queue

-- An insert of one value adds it to the rows where the result is true, and does nothing otherwise.
abbrev pub IsInserting : {Db : Type 0} → (Text → Db → Bool × Db) → (Db → List Text) → Type 0
IsInserting {Db} exec rows =
    (query m : Text) (d : Db)
    → value_of query ≡ some (m, 41 ∷ 59 ∷ [])
    → ((exec query d).0 ≡ true → rows (exec query d).1 ≡ rows d ++ (m ∷ []))
      × ((exec query d).0 ≡ false → rows (exec query d).1 ≡ rows d)

module _ {Db : Type 0} (exec : Text → Db → Bool × Db) (rows : Db → List Text) where
  added :
      (m : Text) (d : Db) (p : Bool × Db)
      → (p.0 ≡ true → rows p.1 ≡ rows d ++ (m ∷ [])) × (p.0 ≡ false → rows p.1 ≡ rows d)
      → rows p.1 ≡ rows d ++ those (p.0 ∷ []) (m ∷ [])
  added m d (true, e) h = h.0 refl
  added m d (false, e) h = h.1 refl ∙ sym (append-nil (rows d))

  write_to_media-rows :
      (is_open : Bool) (m : Text) (d : Db)
      → IsInserting exec rows
      → Without 39 m
      → Without 0 m
      → let p = write_to_media exec is_open m d in rows p.1 ≡ rows d ++ those (p.0 ∷ []) (m ∷ [])
  unfolding write_to_media execute_query insert_query
  write_to_media-rows false m d sql quotes nuls = sym (append-nil (rows d))
  write_to_media-rows true m d sql quotes nuls =
      let read = value_of-query m (59 ∷ []) 41 quotes (λ e. absurd (omega arith)) in
      subst (λ q. rows (exec q d).1 ≡ rows d ++ those ((exec q d).0 ∷ []) (m ∷ []))
        (sym (c_string-insert_query m nuls))
        (added m d (exec (insert_query m) d) (sql (insert_query m) m d read))

-- A flush of messages without quotes and NULs, where SQLite adds the value of an insert statement to the
-- rows if its result is true, and does nothing otherwise: the rows are those of before and then, in
-- order and each once, exactly the messages whose `WriteToMedia` gave true.
pub flush-rows :
    {Db : Type 0} (exec : Text → Db → Bool × Db) (rows : Db → List Text) (is_open : Bool)
    (queue : List Text) (d : Db)
    → IsInserting exec rows
    → AllPlain queue
    → let p = flush exec is_open queue d in rows p.1 ≡ rows d ++ those p.0 queue
unfolding flush
flush-rows exec rows is_open [] d sql plain = sym (append-nil (rows d))
flush-rows exec rows is_open (m ∷ queue) d sql plain =
    let (ok, d1) = write_to_media exec is_open m d in
    let oks = (flush exec is_open queue d1).0 in
    flush-rows exec rows is_open queue d1 sql plain.2
    ∙ ap (λ l. l ++ those oks queue) (write_to_media-rows exec rows is_open m d sql plain.0 plain.1)
    ∙ append_assoc (rows d) (those (ok ∷ []) (m ∷ [])) (those oks queue)
    ∙ ap (λ l. rows d ++ l) (those-first ok oks m queue)
