-- ===== src/Template.antt =====
-- dbx/sqltmplx: SQL templates, scanned into tokens and parsed into a tree. A string is the list of
-- its code points; the errors that the parts return are one type.
pub mod Text
pub mod Scan
pub mod Parse
pub mod Compile
pub mod Render
