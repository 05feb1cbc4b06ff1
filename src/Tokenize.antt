-- ===== src/Tokenize.antt =====
-- The tokenizer: `Parser::tokenize` of src/parser.rs, and how a token is shown.
--
-- The text is scanned by structural recursion inside a token, and from token to token on fuel.
pub mod Literals
pub mod Scan
pub mod Display
pub mod Ends
pub mod Words
pub mod Numbers
pub mod Shown
pub mod RoundTrip
pub mod Written
pub mod Again
pub mod Std
pub mod Tests
