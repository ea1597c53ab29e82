-- ===== src/Python.antt =====
-- src/python.c: the CPython binding. What the interpreter answers is a parameter.
pub mod Signature
pub mod Wrapper
pub mod Server
